-- ===== src/TenantAccess/Guard.antt =====
-- Every method is behind the permission that its name suggests.
use mathlib.Core.List.{Mem}
use clinks.Prelude.{ℕ, ◌≡◌, inl, inr, false, List, arith}
use clinks.Text.{Str, contains, contains_iff}
use clinks.Errors.{Result, ok, err, domain, unauthorized, fails, Result-cases}
use clinks.Exec.{Act, ◌>>=◌, lift}
use clinks.Permission.{tenant_manage, user_read, user_manage, role_read, role_manage}
use clinks.Domain.{Tenant, Role, Membership, Session}
use clinks.Pagination.Filters.{MembershipFilter, RoleFilter, InvitationFilter}
use clinks.TenantAccess.{
  TenantAccess, active_tenant, require, update_current_tenant, list_memberships, update_membership,
  list_roles, create_role, update_role, delete_role, list_invitations, revoke_invitation,
}

-- The nine calls.
pub data Request : Type 0 where
  updates_current_tenant : Str → ℕ → Request
  lists_memberships : MembershipFilter → Request
  updates_membership : Membership → Request
  lists_roles : RoleFilter → Request
  creates_role : Str → List Str → Request
  updates_role : Role → Request
  deletes_role : Str → ℕ → Request
  lists_invitations : InvitationFilter → Request
  revokes_invitation : Str → Request

abbrev pub needs : Request → Str
needs (updates_current_tenant name revision) = tenant_manage
needs (lists_memberships filter) = user_read
needs (updates_membership membership) = user_manage
needs (lists_roles filter) = role_read
needs (creates_role name permissions) = role_manage
needs (updates_role role) = role_manage
needs (deletes_role role_id revision) = role_manage
needs (lists_invitations filter) = user_read
needs (revokes_invitation id) = user_manage

-- The outcome of a call without the value that it returns.
abbrev forget : {A W : Type 0} → Result A × W → Result (Unit {0}) × W
forget (ok a, w) = (ok tt, w)
forget (err e, w) = (err e, w)

module _ {W : Type 0} (management : TenantAccess W) where
  abbrev pub perform : Request → Session → W → Result (Unit {0}) × W
  perform (updates_current_tenant name revision) session w =
      forget (update_current_tenant management session name revision w)
  perform (lists_memberships filter) session w =
      forget (list_memberships management session filter w)
  perform (updates_membership membership) session w =
      forget (update_membership management session membership w)
  perform (lists_roles filter) session w = forget (list_roles management session filter w)
  perform (creates_role name permissions) session w =
      forget (create_role management session name permissions w)
  perform (updates_role role) session w = forget (update_role management session role w)
  perform (deletes_role role_id revision) session w =
      forget (delete_role management session role_id revision w)
  perform (lists_invitations filter) session w =
      forget (list_invitations management session filter w)
  perform (revokes_invitation id) session w = forget (revoke_invitation management session id w)

  -- The user of the session holds the permission in the tenant of the session.
  pub record Authorized (session : Session) (permission : Str) (w : W) : Type 0 where
    pub tenant : Tenant
    pub in_tenant : active_tenant session ≡ ok tenant
    pub membership : Membership
    pub found :
        (management.memberships.find_active_membership session.user.id tenant.id w).0
        ≡ ok membership
    pub permissions : List Str
    pub granted :
        (management.roles.permissions_for_role tenant.id membership.role_id
          (management.memberships.find_active_membership session.user.id tenant.id w).1).0
        ≡ ok permissions
    pub holds : Mem permission permissions

  guarded :
      {A : Type 0} (session : Session) (permission : Str) (rest : Tenant → Act W A) (w : W)
      → fails
          (forget (
            (lift (active_tenant session) >>= λ tenant.
            require management session.user.id tenant.id permission >>= λ _. rest tenant)
              w)).0
        ≡ false
      → Authorized session permission w
  unfolding require
  guarded session permission rest w e = elim (Result-cases (active_tenant session)) [
    | inl (tenant, t) ↦
        let (found, w1) =
          management.memberships.find_active_membership session.user.id tenant.id w in
        elim (Result-cases found) [
          | inl (m, f) ↦
              elim (Result-cases (management.roles.permissions_for_role tenant.id m.role_id w1).0) [
                | inl (ps, g) ↦ record {
                  tenant = tenant;
                  in_tenant = t;
                  membership = m;
                  found = f;
                  permissions = ps;
                  granted = g;
                  holds = (contains_iff ps permission).0 (ground arith);
                }
                | inr (x, g) ↦ absurd (ground arith)
              ]
          | inr (x, f) ↦ absurd (ground arith)
        ]
    | inr (x, t) ↦ absurd (ground arith)
  ]

  -- Any call of the nine that goes through was made in a session with a tenant, by a user with an
  -- active membership in that tenant whose role grants the permission of the call.
  pub perform-Authorized :
      (request : Request) (session : Session) (w : W)
      → fails (perform request session w).0 ≡ false
      → Authorized session (needs request) w
  unfolding update_current_tenant list_memberships update_membership list_roles create_role
      update_role delete_role list_invitations revoke_invitation
  perform-Authorized (updates_current_tenant name revision) session w e =
      guarded session tenant_manage _ w e
  perform-Authorized (lists_memberships filter) session w e = guarded session user_read _ w e
  perform-Authorized (updates_membership membership) session w e = guarded session user_manage _ w e
  perform-Authorized (lists_roles filter) session w e = guarded session role_read _ w e
  perform-Authorized (creates_role name permissions) session w e = guarded session role_manage _ w e
  perform-Authorized (updates_role role) session w e = guarded session role_manage _ w e
  perform-Authorized (deletes_role role_id revision) session w e = guarded session role_manage _ w e
  perform-Authorized (lists_invitations filter) session w e = guarded session user_read _ w e
  perform-Authorized (revokes_invitation id) session w e = guarded session user_manage _ w e

  -- The state after the two lookups of a permission check.
  abbrev pub after_lookups : Session → Tenant → Membership → W → W
  after_lookups session tenant membership w =
      (management.roles.permissions_for_role tenant.id membership.role_id
        (management.memberships.find_active_membership session.user.id tenant.id w).1).1

  module _ (session : Session) (w : W) (tenant : Tenant) (membership : Membership)
      (permissions : List Str) (in_tenant : active_tenant session ≡ ok tenant)
      (found : (management.memberships.find_active_membership session.user.id tenant.id w).0
        ≡ ok membership)
      (granted : (management.roles.permissions_for_role tenant.id membership.role_id
          (management.memberships.find_active_membership session.user.id tenant.id w).1).0
        ≡ ok permissions) where
    denied :
        {A : Type 0} (permission : Str) (rest : Tenant → Act W A)
        → contains permissions permission ≡ false
        → forget (
            (lift (active_tenant session) >>= λ tenant.
            require management session.user.id tenant.id permission >>= λ _. rest tenant)
              w)
          ≡ (err (domain unauthorized), after_lookups session tenant membership w)
    unfolding require
    denied permission rest lacks = ground arith

    -- Without the permission the call is refused as unauthorized, and nothing happens beyond the two
    -- lookups: no store is asked for a change or for a list.
    pub perform_denied :
        (request : Request)
        → contains permissions (needs request) ≡ false
        → perform request session w
          ≡ (err (domain unauthorized), after_lookups session tenant membership w)
    unfolding update_current_tenant list_memberships update_membership list_roles create_role
        update_role delete_role list_invitations revoke_invitation
    perform_denied (updates_current_tenant name revision) lacks = denied tenant_manage _ lacks
    perform_denied (lists_memberships filter) lacks = denied user_read _ lacks
    perform_denied (updates_membership membership) lacks = denied user_manage _ lacks
    perform_denied (lists_roles filter) lacks = denied role_read _ lacks
    perform_denied (creates_role name permissions) lacks = denied role_manage _ lacks
    perform_denied (updates_role role) lacks = denied role_manage _ lacks
    perform_denied (deletes_role role_id revision) lacks = denied role_manage _ lacks
    perform_denied (lists_invitations filter) lacks = denied user_read _ lacks
    perform_denied (revokes_invitation id) lacks = denied user_manage _ lacks
