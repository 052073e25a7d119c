-- ===== src/TenantAccess.antt =====
-- tenant_access.go: what the members of a tenant may do to it. Each method checks the session, then
-- the permission, then its input, and calls a store.
pub mod Guard
pub mod Roles
pub mod Tests
use clinks.Prelude.{
  ℕ, Bool, true, false, ◌&&◌, ◌||◌, not, List, Option, none, some, ◌==◌, if◌then◌else◌,
}
use clinks.Text.{Str, contains}
use clinks.Errors.{Result, ok, err, domain, unauthorized, validation, conflict, fails}
use clinks.Exec.{Act, pure, lift, or_reject, require_that, ◌>>=◌, ◌>>◌}
use clinks.Validation.{valid_uuid, normalize_tenant_name, normalize_role_name}
use clinks.Permission.{
  tenant_manage, user_read, user_manage, role_read, role_manage, valid_permissions,
}
use clinks.Domain.{
  Tenant, Role, Membership, Session, Invitation, is_protected, membership_status_is_valid,
  custom_kind,
}
use clinks.Pagination.{Page}
use clinks.Pagination.Filters.{
  MembershipFilter, RoleFilter, InvitationFilter, normalized_membership_filter,
  normalized_role_filter, normalized_invitation_filter,
}
use clinks.Stores.{TenantEditor, MembershipManager, RoleStore, InvitationAdminStore}

pub record TenantAccess (W : Type 0) : Type 0 where
  pub tenants : TenantEditor W
  pub memberships : MembershipManager W
  pub roles : RoleStore W
  pub invitations : InvitationAdminStore W

abbrev usable_tenant : Session → Option Tenant → Result Tenant
usable_tenant session none = err (domain unauthorized)
usable_tenant session (some tenant) =
    if not (valid_uuid tenant.id) || not (valid_uuid session.user.id)
    then err (domain unauthorized)
    else ok tenant

unfoldable pub active_tenant : Session → Result Tenant
active_tenant session = usable_tenant session session.active_tenant

module _ {W : Type 0} (management : TenantAccess W) where
  unfoldable pub require : Str → Str → Str → Act W (Unit {0})
  require user_id tenant_id permission = do
    membership ← management.memberships.find_active_membership user_id tenant_id
    permissions ← management.roles.permissions_for_role tenant_id membership.role_id
    require_that (contains permissions permission) unauthorized

  unfoldable pub update_current_tenant : Session → Str → ℕ → Act W Tenant
  update_current_tenant session name revision = do
    tenant ← lift (active_tenant session)
    require session.user.id tenant.id tenant_manage
    name' ← or_reject (lift (normalize_tenant_name name)) validation
    require_that (not (revision == 0)) validation
    management.tenants.update_tenant (record tenant { name = name'; revision = revision })
        session.user.id

  unfoldable pub list_memberships : Session → MembershipFilter → Act W (Page Membership)
  list_memberships session filter = do
    tenant ← lift (active_tenant session)
    require session.user.id tenant.id user_read
    filter' ← lift (normalized_membership_filter filter)
    management.memberships.list_memberships tenant.id filter'

  unfoldable pub update_membership : Session → Membership → Act W Membership
  update_membership session membership = do
    tenant ← lift (active_tenant session)
    require session.user.id tenant.id user_manage
    require_that
        (not (
          not (valid_uuid membership.id)
          || not (valid_uuid membership.role_id)
          || not (membership_status_is_valid membership.status)
          || membership.revision == 0))
        validation
    management.memberships.update_membership (record membership { tenant = tenant }) session.user.id

  unfoldable pub list_roles : Session → RoleFilter → Act W (Page Role)
  list_roles session filter = do
    tenant ← lift (active_tenant session)
    require session.user.id tenant.id role_read
    filter' ← lift (normalized_role_filter filter)
    management.roles.list_roles tenant.id filter'

  unfoldable pub create_role : Session → Str → List Str → Act W Role
  create_role session name permissions = do
    tenant ← lift (active_tenant session)
    require session.user.id tenant.id role_manage
    name' ← or_reject (lift (normalize_role_name name)) validation
    require_that (valid_permissions permissions) validation
    management.roles.create_role
        (record {
          id = List.[];
          tenant_id = tenant.id;
          name = name';
          kind = custom_kind;
          permissions = permissions;
          revision = 0;
          created_at = 0;
          updated_at = 0;
        })
        session.user.id

  unfoldable pub update_role : Session → Role → Act W Role
  update_role session role = do
    tenant ← lift (active_tenant session)
    require session.user.id tenant.id role_manage
    name' ← or_reject (lift (normalize_role_name role.name)) validation
    require_that
        (not (
          not (valid_uuid role.id)
          || role.revision == 0
          || not (valid_permissions role.permissions)))
        validation
    current ← management.roles.find_role tenant.id role.id
    require_that (not (is_protected current)) conflict
    management.roles.update_role (record role { name = name'; tenant_id = tenant.id })
        session.user.id

  unfoldable pub delete_role : Session → Str → ℕ → Act W (Unit {0})
  delete_role session role_id revision = do
    tenant ← lift (active_tenant session)
    require session.user.id tenant.id role_manage
    require_that (not (not (valid_uuid role_id) || revision == 0)) validation
    role ← management.roles.find_role tenant.id role_id
    require_that (not (is_protected role)) conflict
    management.roles.delete_role tenant.id role_id revision session.user.id

  unfoldable pub list_invitations : Session → InvitationFilter → Act W (Page Invitation)
  list_invitations session filter = do
    tenant ← lift (active_tenant session)
    require session.user.id tenant.id user_read
    filter' ← lift (normalized_invitation_filter filter)
    management.invitations.list_tenant_invitations tenant.id filter'

  unfoldable pub revoke_invitation : Session → Str → Act W (Unit {0})
  revoke_invitation session id = do
    tenant ← lift (active_tenant session)
    require session.user.id tenant.id user_manage
    require_that (valid_uuid id) validation
    management.invitations.revoke_tenant_invitation tenant.id id session.user.id
