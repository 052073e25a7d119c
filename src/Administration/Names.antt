-- ===== src/Administration/Names.antt =====
-- How a change of a tenant through the service fails over the store of tenants.
use clinks.Prelude.{
  ◌≡◌, sym, ap, ◌∙◌, inl, inr, ℕ, true, false, ◌&&◌, List, [], ◌∷◌, subst, arith, Bool-cases, ◌==◌,
}
use clinks.Text.{Str, same, trim_space}
use clinks.Errors.{Err, Result, ok, err, domain, validation, conflict, Result-cases}
use clinks.Validation.{normalize_tenant_name, normalize_name, valid_uuid}
use clinks.Domain.{Tenant}
use clinks.Sql.{btrim, char_length_between, any_where, update_where}
use clinks.Sql.Trimmed.{btrim-trim_space}
use clinks.Tables.{Tables, UserRow, audit_refused}
use clinks.Tables.Tenants.{tenant_name_fits, changed_tenant, update_system}
use clinks.Administration.{TenantAdministrationStore, update_tenant}

normalized-fits :
    (name name' : Str) → normalize_tenant_name name ≡ ok name' → tenant_name_fits name' ≡ true
unfolding normalize_tenant_name normalize_name char_length_between
normalized-fits name name' h =
    let trimmed : trim_space name ≡ name' = ground arith in
    let same_name : btrim name' ≡ name' = rw (sym trimmed) (btrim-trim_space name) in
    rw same_name (ground (arith, trimmed))

-- Why a change fails, and with which error.
pub data Failed (tenant : Tenant) (actor_id : Str) (event_id : Result Str) (db : Tables)
    : Err → Type 0 where
  invalid_name :
      (e : Err)
      → normalize_tenant_name tenant.name ≡ err e
      → Failed tenant actor_id event_id db (domain validation)
  invalid_id : valid_uuid tenant.id ≡ false → Failed tenant actor_id event_id db (domain validation)
  no_revision : tenant.revision ≡ 0 → Failed tenant actor_id event_id db (domain validation)
  invalid_actor :
      valid_uuid actor_id ≡ false → Failed tenant actor_id event_id db (domain validation)
  stale :
      any_where (λ (t : Tenant). same t.id tenant.id && t.revision == tenant.revision) db.tenants
        ≡ false
      → Failed tenant actor_id event_id db (domain conflict)
  no_event_id : (e : Err) → event_id ≡ err e → Failed tenant actor_id event_id db e
  unknown_actor :
      any_where (λ (u : UserRow). same u.user.id actor_id) db.users ≡ false
      → Failed tenant actor_id event_id db audit_refused

-- A tenant that was renamed is still there.
renamed-known :
    (id name : Str) (revision now : ℕ) (tenants : List Tenant)
    → any_where (λ (t : Tenant). same t.id id && t.revision == revision) tenants ≡ true
    → any_where
        (λ (t : Tenant). same t.id id)
        (update_where
          (λ (t : Tenant). same t.id id && t.revision == revision)
          (changed_tenant now name)
          tenants)
      ≡ true
renamed-known id name revision now [] h = absurd (ground arith)
renamed-known id name revision now (x ∷ xs) h =
    elim (Bool-cases (same x.id id && x.revision == revision)) [
      | inl e ↦ ground arith
      | inr n ↦ ground (arith, renamed-known id name revision now xs)
    ]

module _ (tenant : Tenant) (name actor_id : Str) (db : Tables) (e : Err)
    (f : tenant_name_fits name ≡ true) where
  update_system-Failed :
      (event_id : Result Str)
      → (update_system (record tenant { name = name }) actor_id event_id db).0 ≡ err e
      → Failed tenant actor_id event_id db e
  unfolding update_system
  update_system-Failed event_id h =
      let at = λ (t : Tenant). same t.id tenant.id && t.revision == tenant.revision in
      elim (Bool-cases (any_where at db.tenants)) [
        | inr n ↦
            let is : domain conflict ≡ e = ground arith in
            subst (Failed tenant actor_id event_id db) is (stale n)
        | inl a ↦ elim (Result-cases event_id) [
          | inr (x, k) ↦ let is : x ≡ e = ground arith in no_event_id e (k ∙ ap err is)
          | inl (id, k) ↦
              elim (Bool-cases (any_where (λ (u : UserRow). same u.user.id actor_id) db.users)) [
                | inr n ↦
                    let is : audit_refused ≡ e = ground arith in
                    subst (Failed tenant actor_id event_id db) is (unknown_actor n)
                | inl u ↦
                    let there = renamed-known tenant.id name tenant.revision db.now db.tenants a in
                    absurd (ground (arith, there))
              ]
        ]
      ]

-- Where the service writes to the store, a change of a tenant fails only as invalid, for a name that does
-- not normalise, an identifier that is none or no revision; as a conflict, when no tenant has the
-- identifier and the revision; because no identifier was made for the audit event; or because no user
-- has the identifier of the actor. The constraint on names never refuses what the service let through.
pub update_tenant-Failed :
    (tenants : TenantAdministrationStore Tables) (event_id : Result Str) (tenant : Tenant)
    (actor_id : Str) (db : Tables) (e : Err)
    → ((t : Tenant) (actor : Str) → tenants.update_system t actor ≡ update_system t actor event_id)
    → (update_tenant tenants tenant actor_id db).0 ≡ err e
    → Failed tenant actor_id event_id db e
unfolding update_tenant
update_tenant-Failed tenants event_id tenant actor_id db e s h =
    elim (Result-cases (normalize_tenant_name tenant.name)) [
      | inr (x, k) ↦
          let is : domain validation ≡ e = ground arith in
          subst (Failed tenant actor_id event_id db) is (invalid_name x k)
      | inl (name, k) ↦ elim (Bool-cases (valid_uuid tenant.id)) [
        | inr n ↦
            let is : domain validation ≡ e = ground arith in
            subst (Failed tenant actor_id event_id db) is (invalid_id n)
        | inl i ↦ elim (Bool-cases (tenant.revision == 0)) [
          | inl r ↦
              let is : domain validation ≡ e = ground arith in
              subst (Failed tenant actor_id event_id db) is (no_revision (ground arith))
          | inr r ↦ elim (Bool-cases (valid_uuid actor_id)) [
            | inr n ↦
                let is : domain validation ≡ e = ground arith in
                subst (Failed tenant actor_id event_id db) is (invalid_actor n)
            | inl v ↦
                let wrote : (update_system (record tenant { name = name }) actor_id event_id db).0
                    ≡ err e =
                  ground (arith, s (record tenant { name = name }) actor_id) in
                update_system-Failed tenant name actor_id db e (normalized-fits tenant.name name k)
                  event_id wrote
          ]
        ]
      ]
    ]
