-- ===== src/Stores.antt =====
-- The interfaces that the services call: identity_store.go, membership_store.go, role_store.go,
-- invitation_store.go, tenant_store.go, audit_store.go, auth_crypto.go. Each method is an action on
-- the state `W` of what lies behind the interface; a service is proved for every such record.
use clinks.Prelude.{ℕ, Bool, List, Option, ℤ}
use clinks.Text.{Str}
use clinks.Errors.{Err}
use clinks.Exec.{Act}
use clinks.Domain.{
  Tenant, TenantOwnerRegistration, Role, User, Membership, Session, SessionClaim, ExternalIdentity,
  Invitation, PasswordInvitationAcceptance, ExternalInvitationAcceptance, OutboxJob,
  InvitationMessage,
}
use clinks.Pagination.{Page}
use clinks.Pagination.Filters.{MembershipFilter, RoleFilter, InvitationFilter}

pub record SessionIdentityStore (W : Type 0) : Type 0 where
  pub find_by_email : Str → Act W (User × Str)
  pub find_by_id : Str → Act W User
  pub invalidate_session : Str → Act W (Unit {0})
  pub rotate_tenant_session : Str → Str → Str → Act W ℕ

pub record ExternalIdentityStore (W : Type 0) : Type 0 where
  pub find_user : Str → Str → Act W User
  pub link_with_audit : Str → ExternalIdentity → Option Str → Act W (Unit {0})

pub record TenantProvisioner (W : Type 0) : Type 0 where
  pub create_tenant_owner : TenantOwnerRegistration → Act W Session

pub record MembershipSessionReader (W : Type 0) : Type 0 where
  pub memberships_for_user : Str → Act W (List Membership)
  pub find_active_membership : Str → Str → Act W Membership

pub record RoleLookup (W : Type 0) : Type 0 where
  pub find_role : Str → Str → Act W Role
  pub permissions_for_role : Str → Str → Act W (List Str)

pub record InvitationStore (W : Type 0) : Type 0 where
  pub create_invitation : Invitation → Act W Invitation
  pub find_invitation : Str → Act W Invitation
  pub accept_invitation : PasswordInvitationAcceptance → Act W (User × Membership)
  pub accept_external_invitation : ExternalInvitationAcceptance → Act W (User × Membership)

pub record PasswordHasher (W : Type 0) : Type 0 where
  pub hash : Str → Act W Str
  pub verify : Str → Str → Bool

pub record SessionIssuer (W : Type 0) : Type 0 where
  pub issue : SessionClaim → Act W Str
  pub verify : Str → Act W SessionClaim

pub record TenantEditor (W : Type 0) : Type 0 where
  pub update_tenant : Tenant → Str → Act W Tenant

pub record MembershipManager (W : Type 0) : Type 0 where
  pub find_active_membership : Str → Str → Act W Membership
  pub list_memberships : Str → MembershipFilter → Act W (Page Membership)
  pub update_membership : Membership → Str → Act W Membership

pub record RoleStore (W : Type 0) : Type 0 where
  pub list_roles : Str → RoleFilter → Act W (Page Role)
  pub find_role : Str → Str → Act W Role
  pub permissions_for_role : Str → Str → Act W (List Str)
  pub create_role : Role → Str → Act W Role
  pub update_role : Role → Str → Act W Role
  pub delete_role : Str → Str → ℕ → Str → Act W (Unit {0})

pub record InvitationAdminStore (W : Type 0) : Type 0 where
  pub list_tenant_invitations : Str → InvitationFilter → Act W (Page Invitation)
  pub revoke_tenant_invitation : Str → Str → Str → Act W (Unit {0})

pub record OutboxStore (W : Type 0) : Type 0 where
  pub claim_invitation_email : Act W (OutboxJob × Invitation)
  pub complete : OutboxJob → Act W (Unit {0})
  pub retry : OutboxJob → Err → Act W (Unit {0})
  pub anonymize_expired_invitations : ℤ → Act W ℤ

pub record MessageCatalog (W : Type 0) : Type 0 where
  pub default_locale : Act W Str
  pub message : Str → Str → Act W Str

pub record InvitationMailer (W : Type 0) : Type 0 where
  pub send : InvitationMessage → Act W (Unit {0})
