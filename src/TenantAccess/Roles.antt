-- ===== src/TenantAccess/Roles.antt =====
-- What reaches the role store.
use clinks.Prelude.{ℕ, ◌≡◌, inl, inr, true, false, arith, ◌<◌}
use clinks.Text.{Str}
use clinks.Errors.{ok, err, domain, conflict, Result-cases}
use clinks.Validation.{normalize_role_name, valid_uuid}
use clinks.Permission.{valid_permissions, role_manage}
use clinks.Domain.{Tenant, Role, Session, is_protected}
use clinks.TenantAccess.{TenantAccess, active_tenant, require, update_role, delete_role}

module _ {W : Type 0} (management : TenantAccess W) where
  -- A change of a role that went through: the stored role belongs to the tenant of the session and is
  -- not protected, and the store was given the new role under that tenant with a normalised name.
  pub record RoleChange (session : Session) (role : Role) (w : W) (updated : Role) : Type 0 where
    pub tenant : Tenant
    pub in_tenant : active_tenant session ≡ ok tenant
    pub name : Str
    pub named : normalize_role_name role.name ≡ ok name
    pub known : valid_permissions role.permissions ≡ true
    pub revised : 0 < role.revision
    pub before_find : W
    pub current : Role
    pub found : (management.roles.find_role tenant.id role.id before_find).0 ≡ ok current
    pub editable : is_protected current ≡ false
    pub before_store : W
    pub stored :
        (management.roles.update_role
          (record role { name = name; tenant_id = tenant.id })
          session.user.id
          before_store).0
        ≡ ok updated

  -- A role is changed only in the tenant of the session, only if it is not protected, and only with a
  -- normalised name, known permissions and a revision.
  pub update_role-RoleChange :
      (session : Session) (role : Role) (w : W) {updated : Role}
      → (update_role management session role w).0 ≡ ok updated
      → RoleChange session role w updated
  unfolding update_role
  update_role-RoleChange session role w e = elim (Result-cases (active_tenant session)) [
    | inl (tenant, t) ↦
        let (allowed, w1) = require management session.user.id tenant.id role_manage w in
        elim (Result-cases allowed) [
          | inl (u, a) ↦ elim (Result-cases (normalize_role_name role.name)) [
            | inl (name, n) ↦
                let (found, w2) = management.roles.find_role tenant.id role.id w1 in
                elim (Result-cases found) [
                  | inl (current, f) ↦ record {
                    tenant = tenant;
                    in_tenant = t;
                    name = name;
                    named = n;
                    known = ground arith;
                    revised = ground arith;
                    before_find = w1;
                    current = current;
                    found = f;
                    editable = ground arith;
                    before_store = w2;
                    stored = ground arith;
                  }
                  | inr (x, f) ↦ absurd (ground arith)
                ]
            | inr (x, n) ↦ absurd (ground arith)
          ]
          | inr (x, a) ↦ absurd (ground arith)
        ]
    | inr (x, t) ↦ absurd (ground arith)
  ]

  -- A protected role is not deleted: the call ends after the lookup of the role, with a conflict.
  pub delete_role_protected :
      (session : Session) (role_id : Str) (revision : ℕ) (w : W) (tenant : Tenant) (role : Role)
      → active_tenant session ≡ ok tenant
      → valid_uuid role_id ≡ true
      → 0 < revision
      → let (allowed, w1) = require management session.user.id tenant.id role_manage w in
        allowed ≡ ok tt
        → (management.roles.find_role tenant.id role_id w1).0 ≡ ok role
        → is_protected role ≡ true
        → delete_role management session role_id revision w
          ≡ (err (domain conflict), (management.roles.find_role tenant.id role_id w1).1)
  unfolding delete_role
  delete_role_protected session role_id revision w tenant role t id rev a f p = ground arith
