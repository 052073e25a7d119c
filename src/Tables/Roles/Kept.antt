-- ===== src/Tables/Roles/Kept.antt =====
-- Writes of roles leave a tenant its administrator.
use clinks.Prelude.{
  ◌≡◌, refl, inl, inr, Bool, true, false, ◌&&◌, ◌||◌, not, List, [], ◌∷◌, ◌++◌, Option, some,
  Bool-cases, arith, ℕ,
}
use clinks.Text.{Str, str, same, same→eq, trim_space}
use clinks.Errors.{Result, validation}
use clinks.Exec.{Act, Keeps, require_that-Keeps, >>=-Keeps, pure, lift, ◌>>=◌, ◌>>◌}
use clinks.Exec.Hoare.{transaction-Ensures, Keeps-Ensures}
use clinks.Validation.{valid_uuid}
use clinks.Domain.{Role, administrator_kind, custom_kind}
use clinks.Sql.{any_where, update_where, delete_where}
use clinks.Sql.Rows.{Keyed-update, Keyed-append}
use clinks.Tables.Audits.{audit-Keeps}
use clinks.Tables.{Tables, audit, tenant_transaction}
use clinks.Tables.Members.Administrators.{Administered}
use clinks.Tables.Roles.{
  name_fits, role_at, custom_at, find_role_tx, clear_permissions, insert_role_permissions,
  insert_role, rename_role, remove_role, inserted, renamed, referred, same_name, numbered, creating,
  updating, create_role, update_role, delete_role,
}
use clinks.Tables.Roles.Leads.{
  roles-Administered, leads-append, leads-update, leads-delete, Keyed-delete,
  insert_permissions-Keeps,
}

-- What a role may be asked to become.
pub data RoleWrite : Type 0 where
  create : Role → Str → Result Str → Result Str → RoleWrite
  update : Role → Str → Result Str → RoleWrite
  delete : Str → Str → ℕ → Str → Result Str → RoleWrite

-- A custom role is no administrator's.
not_leading :
    (tenant_id id : Str) (revision : ℕ) (r : Role)
    → custom_at tenant_id id revision r ≡ true
    → same r.kind administrator_kind ≡ false
unfolding same
not_leading tenant_id id revision r h =
    let custom : r.kind ≡ custom_kind = same→eq r.kind custom_kind (ground arith) in rw custom refl

module _ (t : Str) where
  abbrev Kept : {A : Type 0} → Act Tables A → Type 0
  Kept m = Keeps (Administered t) m

  pure-Kept : {A : Type 0} (a : A) → Kept (pure a)
  pure-Kept a = record { keeps = λ db a. a }

  lift-Kept : {A : Type 0} (r : Result A) → Kept (lift r)
  lift-Kept r = record { keeps = λ db a. a }

  tenant_transaction-Kept :
      {A : Type 0} (id : Str) (m : Act Tables A) → Kept m → Kept (tenant_transaction id m)
  tenant_transaction-Kept id m k =
      >>=-Keeps (Administered t) _ _
        (require_that-Keeps (Administered t) (valid_uuid id) validation)
        (λ u. transaction-Ensures (Administered t) m (Keeps-Ensures (Administered t) m k))

  audit-Kept :
      (event_id : Result Str) (actor tenant : Option Str) (action target : Str)
      → Kept (audit event_id actor tenant action target)
  audit-Kept event_id actor tenant action target =
      audit-Keeps (Administered t)
        (λ db events a. record {
          roles = a.roles;
          memberships = a.memberships;
          some_one = a.some_one;
        })
        event_id actor tenant action target

  find_role-Kept : (tenant_id id : Str) → Kept (find_role_tx tenant_id id)
  unfolding find_role_tx
  find_role-Kept tenant_id id = record { keeps = λ db a. a }

  -- An update that leaves the identifiers and the kinds of roles alone.
  updated-Administered :
      (p : Role → Bool) (f : Role → Role) (db : Tables)
      → ((r : Role) → (f r).id ≡ r.id)
      → ((r : Role) → (f r).kind ≡ r.kind)
      → Administered t db
      → Administered t (record db { roles = update_where p f db.roles })
  updated-Administered p f db i k a =
      roles-Administered t db (update_where p f db.roles)
        (λ id h. rw (leads-update id p f db.roles i k) h)
        (Keyed-update (λ r. r.id) p f db.roles i a.roles) a

  clear-Kept : (tenant_id id : Str) → Kept (clear_permissions tenant_id id)
  clear-Kept tenant_id id = record {
    keeps = λ db a. updated-Administered (role_at tenant_id id) _ db (λ r. refl) (λ r. refl) a;
  }

  insert_permissions-Kept :
      (tenant_id id : Str) (seen permissions : List Str)
      → Kept (insert_role_permissions tenant_id id seen permissions)
  insert_permissions-Kept tenant_id id seen permissions =
      insert_permissions-Keeps (Administered t) (λ p f db i k a. updated-Administered p f db i k a)
        tenant_id id seen permissions

  module _ (lower : Str → Str) where
    insert_role-Kept : (role : Role) → Kept (insert_role lower role)
    insert_role-Kept role = record {
      keeps = λ db a. elim (Bool-cases (not (name_fits role.name))) [
        | inl e ↦ rw e a
        | inr n ↦
            elim (Bool-cases (
              any_where (λ r. same r.id role.id) db.roles
              || any_where (same_name lower role.tenant_id role.name) db.roles
              || not (any_where (λ x. same x.id role.tenant_id) db.tenants))) [
                | inl e ↦ rw (n, e) a
                | inr m ↦
                    rw (n, m)
                      (roles-Administered t db (db.roles ++ inserted db.now role ∷ [])
                        (λ id h. leads-append id (inserted db.now role) db.roles h)
                        (Keyed-append (λ r. r.id) (inserted db.now role) db.roles (ground arith)
                          a.roles)
                        a)
              ]
      ];
    }

    rename_role-Kept : (role : Role) → Kept (rename_role lower role)
    rename_role-Kept role = record {
      keeps = λ db a.
          let at = custom_at role.tenant_id role.id role.revision in
          let f = renamed db.now role.name in
          elim (Bool-cases (any_where at db.roles)) [
            | inr n ↦ rw n a
            | inl e ↦ elim (Bool-cases (name_fits role.name)) [
              | inr n ↦ rw (e, n) a
              | inl b ↦
                  elim (Bool-cases (
                    any_where
                      (λ r. same_name lower role.tenant_id role.name r && not (same r.id role.id))
                      db.roles)) [
                        | inl d ↦ rw (e, b, d) a
                        | inr d ↦
                            rw (e, b, d) (updated-Administered at f db (λ r. refl) (λ r. refl) a)
                      ]
            ]
          ];
    }

  remove_role-Kept : (tenant_id id : Str) (revision : ℕ) → Kept (remove_role tenant_id id revision)
  remove_role-Kept tenant_id id revision = record {
    keeps = λ db a.
        let at = custom_at tenant_id id revision in
        elim (Bool-cases (not (any_where at db.roles) || referred db tenant_id id)) [
          | inl e ↦ rw e a
          | inr n ↦ rw n (
              roles-Administered t db (delete_where at db.roles)
                (λ k h. leads-delete k at db.roles (λ r s. not_leading tenant_id id revision r s) h)
                (Keyed-delete at db.roles a.roles) a)
        ];
  }

  -- The end of a write: the role as it is now, and the audit event.
  reported-Kept :
      (tenant_id id action : Str) (actor_id : Str) (event_id : Result Str)
      → Kept (do
        role ← find_role_tx tenant_id id
        audit event_id (some actor_id) (some role.tenant_id) action role.name
        pure role)
  reported-Kept tenant_id id action actor_id event_id =
      >>=-Keeps (Administered t) _ _ (find_role-Kept tenant_id id) (λ role.
        >>=-Keeps (Administered t) _ (λ u. pure role)
          (audit-Kept event_id (some actor_id) (some role.tenant_id) action role.name)
          (λ u. pure-Kept role))

  module _ (lower : Str → Str) where
    creating-Kept :
        (role : Role) (actor_id : Str) (event_id : Result Str)
        → Kept (creating lower role actor_id event_id)
    creating-Kept role actor_id event_id =
        >>=-Keeps (Administered t) _ _ (insert_role-Kept lower role) (λ u.
          >>=-Keeps (Administered t) _ _
            (insert_permissions-Kept role.tenant_id role.id [] role.permissions)
            (λ v. reported-Kept role.tenant_id role.id (str "role.created") actor_id event_id))

    updating-Kept :
        (role : Role) (actor_id : Str) (event_id : Result Str)
        → Kept (updating lower role actor_id event_id)
    updating-Kept role actor_id event_id =
        >>=-Keeps (Administered t) _ _ (rename_role-Kept lower role) (λ u.
          >>=-Keeps (Administered t) (clear_permissions role.tenant_id role.id) _
            (clear-Kept role.tenant_id role.id)
            (λ v.
              >>=-Keeps (Administered t) _ _
                (insert_permissions-Kept role.tenant_id role.id [] role.permissions)
                (λ w. reported-Kept role.tenant_id role.id (str "role.updated") actor_id event_id)))

-- The state after a write, whatever it returns.
abbrev pub after : (Str → Str) → RoleWrite → Tables → Tables
after lower (create role actor_id uuid event_id) db =
    (create_role lower role actor_id uuid event_id db).1
after lower (update role actor_id event_id) db = (update_role lower role actor_id event_id db).1
after lower (delete tenant_id id revision actor_id event_id) db =
    (delete_role tenant_id id revision actor_id event_id db).1

-- Whatever role is created, changed or deleted, by whomever and whatever the call returns: in tables
-- with their primary keys in which a tenant has an active administrator, that tenant has one afterwards,
-- and the keys still hold.
pub write-Administered :
    (t : Str) (lower : Str → Str) (write : RoleWrite) (db : Tables)
    → Administered t db
    → Administered t (after lower write db)
unfolding create_role update_role delete_role
write-Administered t lower (create role actor_id uuid event_id) db a =
    let m : Act Tables Role = create_role lower role actor_id uuid event_id in
    let k : Keeps (Administered t) m =
      >>=-Keeps (Administered t) _ _
        (lift-Kept t
          (numbered (record role { name = trim_space role.name; kind = custom_kind }) uuid))
        (λ r.
          tenant_transaction-Kept t r.tenant_id _ (creating-Kept t lower r actor_id event_id)) in
    k.keeps db a
write-Administered t lower (update role actor_id event_id) db a =
    (tenant_transaction-Kept t role.tenant_id _ (
        updating-Kept t lower (record role { name = trim_space role.name }) actor_id
          event_id)).keeps
      db a
write-Administered t lower (delete tenant_id id revision actor_id event_id) db a =
    (tenant_transaction-Kept t tenant_id _ (
        >>=-Keeps (Administered t) _ _ (remove_role-Kept t tenant_id id revision) (λ u.
          audit-Kept t event_id (some actor_id) (some tenant_id) (str "role.deleted") id))).keeps
      db a
