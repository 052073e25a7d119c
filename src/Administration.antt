-- ===== src/Administration.antt =====
-- tenant_admin.go, invitation_admin.go, users.go and audit_log.go: the services of the administrators
-- over their stores. What a list of users or one user holds is a parameter.
pub mod Names
pub mod Tests
use clinks.Prelude.{ℕ, ◌==◌, Bool, not, ◌||◌, Option, none, some, List, [], pos}
use clinks.Text.{Str}
use clinks.Errors.{validation, domain, Result, ok, err}
use clinks.Exec.{Act, require_that, lift, replace_error, ◌>>=◌, ◌>>◌}
use clinks.Validation.{valid_uuid, normalize_tenant_name}
use clinks.Domain.{Tenant, Invitation, AuditEvent}
use clinks.Pagination.{Page, default_page_size, sort_descending}
use clinks.Pagination.Filters.{
  TenantFilter, InvitationFilter, UserFilter, AuditFilter, normalized_tenant_filter,
  normalized_invitation_filter, normalized_user_filter, normalized_audit_filter,
}

pub record TenantAdministrationStore (W : Type 0) : Type 0 where
  pub create : Str → Str → Act W Tenant
  pub list_tenants : TenantFilter → Act W (Page Tenant)
  pub update_system : Tenant → Str → Act W Tenant

module _ {W : Type 0} (tenants : TenantAdministrationStore W) where
  unfoldable pub create_tenant : Str → Str → Act W Tenant
  unfolding normalize_tenant_name
  create_tenant name actor_id = do
    name' ← lift (replace_error validation (normalize_tenant_name name))
    require_that (valid_uuid actor_id) validation
    tenants.create name' actor_id

  unfoldable pub list_tenants : TenantFilter → Act W (Page Tenant)
  unfolding normalized_tenant_filter
  list_tenants filter = do
    filter' ← lift (normalized_tenant_filter filter)
    tenants.list_tenants filter'

  unfoldable pub update_tenant : Tenant → Str → Act W Tenant
  unfolding normalize_tenant_name
  update_tenant tenant actor_id = do
    name ← lift (replace_error validation (normalize_tenant_name tenant.name))
    require_that
        (not (not (valid_uuid tenant.id) || tenant.revision == 0 || not (valid_uuid actor_id)))
        validation
    tenants.update_system (record tenant { name = name }) actor_id

-- `InvitationAdminStore`, less the two methods for one tenant.
pub record InvitationAdminStore (W : Type 0) : Type 0 where
  pub list_invitations : InvitationFilter → Act W (Page Invitation)
  pub revoke_invitation : Str → Str → Act W (Unit {0})

module _ {W : Type 0} (invitations : InvitationAdminStore W) where
  unfoldable pub list_invitations : InvitationFilter → Act W (Page Invitation)
  unfolding normalized_invitation_filter
  list_invitations filter = do
    filter' ← lift (normalized_invitation_filter filter)
    invitations.list_invitations filter'

  unfoldable pub revoke_invitation : Str → Str → Act W (Unit {0})
  revoke_invitation id actor_id = do
    require_that (not (not (valid_uuid id) || not (valid_uuid actor_id))) validation
    invitations.revoke_invitation id actor_id

pub record UserStore (W Summary Detail : Type 0) : Type 0 where
  pub list_users : UserFilter → Act W (Page Summary)
  pub get_user : Str → Act W Detail

module _ {W Summary Detail : Type 0} (users : UserStore W Summary Detail) where
  unfoldable pub list_users : UserFilter → Act W (Page Summary)
  unfolding normalized_user_filter
  list_users filter = do filter' ← lift (normalized_user_filter filter); users.list_users filter'

  unfoldable pub get_user : Str → Act W Detail
  get_user id = do require_that (valid_uuid id) validation; users.get_user id

pub record AuditPage : Type 0 where
  pub events : List AuditEvent
  pub next_cursor : Str

-- The filter where none is given.
abbrev pub audit_filter_or : Option AuditFilter → AuditFilter
audit_filter_or (some filter) = filter
audit_filter_or none = record {
  from = 0;
  to = 0;
  actor_id = none;
  tenant_id = none;
  action = [];
  search = [];
  direction = sort_descending;
  cursor = [];
  page_size = pos default_page_size;
}

-- `AuditEvents`, over `ListAuditEvents` of the store.
unfoldable pub audit_events :
    {W : Type 0} → (AuditFilter → Act W AuditPage) → Option AuditFilter → Act W AuditPage
unfolding normalized_audit_filter
audit_events list filter = do
  filter' ← lift (normalized_audit_filter (audit_filter_or filter))
  list filter'
