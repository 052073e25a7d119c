-- ===== src/Tables/Tenants/Owned.antt =====
-- A tenant that was made with an owner has an active administrator.
use clinks.Prelude.{◌≡◌, refl, inl, inr, true, ◌&&◌, ◌||◌, Option, some, Bool-cases, arith, subst}
use clinks.Text.{Str, str, same, same_refl}
use clinks.Errors.{Result, ok, Result-cases, ok-injective}
use clinks.Exec.{Act, pure, lift}
use clinks.Exec.Hoare.{Ensures, >>=-Ensures, Keeps-Ensures, transaction-Achieves}
use clinks.Domain.{Tenant, User, Membership, Session, TenantOwnerRegistration, active_status}
use clinks.Sql.{any_where}
use clinks.Sql.Rows.{Keyed-append, any_where-append}
use clinks.Tables.Audits.{audit-Keeps}
use clinks.Tables.{Tables, audit, administers}
use clinks.Tables.Members.Administrators.{Administered}
use clinks.Tables.Users.{insert_user}
use clinks.Tables.Tenants.{
  TenantUuids, insert_tenant, insert_owner_membership, owner_row, new_tenant, owner_user,
  owner_membership, provisioning, wrapped, create_tenant_owner,
}
use clinks.Tables.Tenants.Defaults.{
  Keys, Led, tenant-Keys, user-Keys, default_roles-Led, lift-Ensures,
}

owner-Administered :
    (membership : Membership)
    → same membership.status active_status ≡ true
    → Ensures
        (Led membership.role_id)
        (insert_owner_membership membership)
        (λ u db. Administered membership.tenant.id db)
owner-Administered membership active = record {
  at = λ db l u h.
      let clash =
        any_where (λ m. same m.id membership.id) db.memberships
        || any_where
            (λ m. same m.tenant_id membership.tenant.id && same m.user_id membership.user_id)
            db.memberships in
      let row = owner_row db.now membership in
      elim (Bool-cases clash) [
        | inl e ↦ absurd (ground arith)
        | inr n ↦ rw n (record {
          roles = l.keys.roles;
          memberships =
              Keyed-append (λ m. m.id) row db.memberships (ground arith) l.keys.memberships;
          some_one =
              any_where-append (administers db membership.tenant.id) db.memberships row
                (rw (same_refl membership.tenant.id, active) l.leading);
        })
      ];
}

audit-Administered :
    (id : Str) (event_id : Result Str) (actor tenant : Option Str) (action target : Str)
    → Ensures
        (Administered id)
        (audit event_id actor tenant action target)
        (λ u db. Administered id db)
audit-Administered id event_id actor tenant action target = Keeps-Ensures (Administered id) _ (
    audit-Keeps (Administered id)
      (λ db events a. record {
        roles = a.roles;
        memberships = a.memberships;
        some_one = a.some_one;
      })
      event_id actor tenant action target)

-- The session is in a tenant that has an active administrator.
pub record OwnerSession (session : Session) (db : Tables) : Type 0 where
  pub tenant : Tenant
  pub entered : session.active_tenant ≡ some tenant
  pub administered : Administered tenant.id db

wrapped-Achieves :
    {A : Type 0} {P : Tables → Type 0} {Q : A → Tables → Type 0} (m : Act Tables A)
    → Ensures P m Q
    → Ensures P (wrapped m) Q
wrapped-Achieves m k = record {
  at = λ db p a h. elim (Result-cases (m db).0) [
    | inl (a', e) ↦ let found : (m db).0 ≡ ok a = ground arith in k.at db p a found
    | inr (x, e) ↦ absurd (ground arith)
  ];
}

module _ (lower : Str → Str) where
  provisioning-Administered :
      (tenant : Tenant) (user : User) (membership_id password_hash : Str) (uuids : TenantUuids)
      → Ensures Keys
          (provisioning lower tenant user membership_id password_hash uuids)
          (λ m db. Administered tenant.id db)
  unfolding same
  provisioning-Administered tenant user membership_id password_hash uuids =
      >>=-Ensures {Q = λ u db. Keys db} (insert_tenant tenant) _
        (Keeps-Ensures Keys _ (tenant-Keys tenant))
        (λ u.
          >>=-Ensures {Q = λ v db. Keys db} (insert_user user (some password_hash)) _
            (Keeps-Ensures Keys _ (user-Keys user (some password_hash)))
            (λ v.
              >>=-Ensures _ _
                (default_roles-Led lower tenant.id uuids.administrator uuids.user_role)
                (λ role.
                  let m = owner_membership tenant user membership_id role in
                  >>=-Ensures {Q = λ w db. Administered tenant.id db} (insert_owner_membership m) _
                    (owner-Administered m refl)
                    (λ w.
                      >>=-Ensures {Q = λ x db. Administered tenant.id db} _ (λ x. pure m)
                        (audit-Administered tenant.id uuids.event (some user.id) (some tenant.id)
                          (str "tenant.registered") tenant.name)
                        (λ x. record { at = λ db p b h. p })))))

  -- Where the primary keys of roles and memberships hold, a registration that succeeds answers a session in
  -- a tenant that has an active administrator, so that what the updates of memberships and roles keep
  -- holds of it from the start.
  pub create_tenant_owner-OwnerSession :
      (registration : TenantOwnerRegistration) (uuids : TenantUuids) (db : Tables)
      (session : Session)
      → Keys db
      → (create_tenant_owner lower registration uuids db).0 ≡ ok session
      → OwnerSession session (create_tenant_owner lower registration uuids db).1
  unfolding create_tenant_owner
  create_tenant_owner-OwnerSession registration uuids db session keys h =
      (>>=-Ensures {Q = λ x db. Keys db} (lift uuids.tenant) _
          (lift-Ensures lower Keys uuids.tenant)
          (λ tenant_id.
            >>=-Ensures {Q = λ x db. Keys db} (lift uuids.user) _
              (lift-Ensures lower Keys uuids.user)
              (λ user_id.
                >>=-Ensures {Q = λ x db. Keys db} (lift uuids.membership) _
                  (lift-Ensures lower Keys uuids.membership)
                  (λ membership_id.
                    let tenant = new_tenant tenant_id registration.tenant_name in
                    let user = owner_user registration user_id in
                    >>=-Ensures {Q = λ m db. Administered tenant.id db} _ _
                      (wrapped-Achieves _ (
                        transaction-Achieves _ (
                          provisioning-Administered tenant user membership_id
                            registration.password_hash uuids)))
                      (λ m. record {
                        at = λ db p s e.
                            subst (λ x. OwnerSession x db) (ok-injective e)
                              (record { tenant = tenant; entered = refl; administered = p });
                      }))))).at
        db keys session h
