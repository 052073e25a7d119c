-- ===== src/Tables/Members/Kept.antt =====
-- The calls of the transaction that changes a membership, with what each of them learns, and what the
-- whole of it keeps.
use clinks.Prelude.{◌≡◌, refl, inl, inr, true, ◌&&◌, Option, some, arith, Bool-cases, Option-cases}
use clinks.Text.{Str, str, same}
use clinks.Errors.{Result, conflict}
use clinks.Exec.{pure, >>=-Keeps, require_that-Keeps}
use clinks.Exec.Hoare.{Ensures, >>=-Ensures, transaction-Ensures, Keeps-Ensures}
use clinks.Sql.{update_where, first_where, any_where}
use clinks.Sql.Rows.{Keyed-update, any_where-update_other, any_where-update_all}
use clinks.Domain.{Membership, Role}
use clinks.Tables.Audits.{audit-Keeps}
use clinks.Tables.{Tables, role_of, administers, audit, invalidate_user_session}
use clinks.Tables.Members.{
  at_key, lock_membership_tenant, lock_membership, membership_role_kind, removes_administrator,
  other_administrators, protect_final_administrator, at_revision, changed_row,
  persist_membership_update, reload, update_membership_tx, update_membership,
}
use clinks.Tables.Members.Administrators.{Administered, Locked, Target, Ready, Ready-cases}

module _ (t : Str) (membership : Membership) where
  abbrev id : Str
  id = membership.id

  abbrev tenant_id : Str
  tenant_id = membership.tenant.id

  persist-Administered :
      (current target : Str)
      → Ensures
          (Ready t membership current target)
          (persist_membership_update membership)
          (λ u db. Administered t db)
  unfolding persist_membership_update
  persist-Administered current target = record {
    at = λ db r u h. elim (Bool-cases (any_where (at_revision membership) db.memberships)) [
      | inr n ↦ absurd (ground arith)
      | inl some_row ↦
          let keyed =
            Keyed-update (λ m. m.id) (at_revision membership) (changed_row membership db.now)
              db.memberships (λ m. refl) r.administered.memberships in
          let q = administers db t in
          let kept : any_where q (
                update_where (at_revision membership) (changed_row membership db.now)
                  db.memberships)
              ≡ true =
            elim (Ready-cases t membership db current target r) [
              | inl others ↦
                  any_where-update_other q (at_revision membership) _ db.memberships others
              | inr all ↦
                  any_where-update_all q (at_revision membership) _ db.memberships all
                    r.administered.some_one
            ] in
          rw some_row
            (record { roles = r.administered.roles; memberships = keyed; some_one = kept })
    ];
  }

  abbrev Start : Tables → Type 0
  Start db = Administered t db

  lock_tenant-Start : Ensures Start (lock_membership_tenant tenant_id) (λ u db. Start db)
  unfolding lock_membership_tenant
  lock_tenant-Start = record {
    at = λ db p u h.
        (require_that-Keeps Start (any_where (λ x. same x.id tenant_id) db.tenants) conflict).keeps
          db p;
  }

  lock_membership-Locked :
      Ensures Start
        (lock_membership id tenant_id)
        (λ locked db. Start db × Locked t membership locked.1 db)
  unfolding lock_membership
  lock_membership-Locked = record {
    at = λ db p locked h. elim (Option-cases (first_where (at_key id tenant_id) db.memberships)) [
      | inl n ↦ absurd (ground arith)
      | inr (row, found) ↦ elim (Option-cases (role_of db row.role_id)) [
        | inl n ↦ absurd (ground arith)
        | inr (role, role_is) ↦ (
          p,
          record {
            row = row;
            role = role;
            found = found;
            role_is = role_is;
            kind_eq = ground arith;
          },
        )
      ]
    ];
  }

  role_kind-Target :
      (current : Str)
      → Ensures
          (λ db. Start db × Locked t membership current db)
          (membership_role_kind membership.role_id tenant_id)
          (λ target db. Start db × Locked t membership current db × Target t membership target db)
  unfolding membership_role_kind
  role_kind-Target current = record {
    at = λ db p target h.
        let c = λ (r : Role). same r.id membership.role_id && same r.tenant_id tenant_id in
        elim (Option-cases (first_where c db.roles)) [
          | inl n ↦ absurd (ground arith)
          | inr (role, found) ↦
              (p.0, p.1, record { role = role; found = found; kind_eq = ground arith })
        ];
  }

  protect-Ready :
      (current target : Str)
      → Ensures
          (λ db. Start db × Locked t membership current db × Target t membership target db)
          (protect_final_administrator membership current target)
          (λ u db. Ready t membership current target db)
  unfolding protect_final_administrator
  protect-Ready current target = record {
    at = λ db p u h. elim (Bool-cases (removes_administrator membership.status current target)) [
      | inr n ↦ rw n (record { administered = p.0; locked = p.1; new_role = p.2; allowed = inl n })
      | inl y ↦ elim (Bool-cases (other_administrators db tenant_id id)) [
        | inr n ↦ absurd (ground arith)
        | inl o ↦
            rw (y, o) (record { administered = p.0; locked = p.1; new_role = p.2; allowed = inr o })
      ]
    ];
  }

  audit-Start :
      (uuid : Result Str) (actor tenant : Option Str) (action target : Str)
      → Ensures Start (audit uuid actor tenant action target) (λ u db. Start db)
  audit-Start uuid actor tenant action target = Keeps-Ensures Start _ (
      audit-Keeps Start
        (λ db events p. record {
          roles = p.roles;
          memberships = p.memberships;
          some_one = p.some_one;
        })
        uuid actor tenant action target)

  update_tx-Start :
      (actor_id : Str) (event_id : Result Str)
      → Ensures Start (update_membership_tx membership actor_id event_id) (λ u db. Start db)
  unfolding update_membership_tx reload
  update_tx-Start actor_id event_id = >>=-Ensures _ _ lock_tenant-Start (λ u.
      >>=-Ensures _ _ lock_membership-Locked (λ locked.
        >>=-Ensures _ _ (role_kind-Target locked.1) (λ target.
          >>=-Ensures _ _ (protect-Ready locked.1 target) (λ u'.
            >>=-Ensures _ _ (persist-Administered locked.1 target) (λ u''.
              >>=-Ensures {Q = λ v db. Start db} (invalidate_user_session locked.0) _
                (record {
                  at = λ db p v h. record {
                    roles = p.roles;
                    memberships = p.memberships;
                    some_one = p.some_one;
                  };
                })
                (λ v.
                  >>=-Ensures {Q = λ v db. Start db} (reload id tenant_id) _
                    (record { at = λ db p v h. p })
                    (λ updated.
                      >>=-Ensures {Q = λ v db. Start db} _ (λ v. pure updated)
                        (audit-Start event_id (some actor_id) (some updated.tenant.id)
                          (str "membership.updated") updated.user_email)
                        (λ v'. record { at = λ db p v h. p }))))))))

-- Whatever membership is changed by whomever, in tables with their primary keys in which a tenant has
-- an active administrator, that tenant has one afterwards, and the keys still hold.
pub update_membership-Administered :
    (t : Str) (membership : Membership) (actor_id : Str) (event_id : Result Str) (db : Tables)
    → Administered t db
    → Administered t (update_membership membership actor_id event_id db).1
unfolding update_membership
update_membership-Administered t membership actor_id event_id db p =
    (>>=-Keeps (Administered t) _ _ (require_that-Keeps (Administered t) _ _) (λ u.
        transaction-Ensures (Administered t) _
          (update_tx-Start t membership actor_id event_id))).keeps
      db p
