-- ===== src/Auth.antt =====
-- auth.go: the state of the authentication service, and the steps that its methods share. The
-- services behind it are the records of `Stores`; the links of invitations and the clock are
-- functions of its own. A method is a function of the service, as in the source.
pub mod Credentials
pub mod External
pub mod Invitations
pub mod Sessions
pub mod Login
pub mod Refusal
pub mod Accept
pub mod Invite
pub mod Tests
use clinks.Prelude.{
  ℕ, Bool, true, false, ◌&&◌, not, List, [], ◌∷◌, Option, none, some, ◌==◌, if◌then◌else◌, keep,
}
use mathlib.Core.Option
use clinks.Text.{Str, str, same, contains, trim_space}
use clinks.Errors.{ErrorKind, unauthorized, internal, Err, domain, Result, ok, err, validation}
use clinks.Exec.{Act, pure, reject, or_reject, require_that, ◌>>=◌, ◌>>◌}
use clinks.Runtime.{Runtime}
use clinks.Domain.{
  Tenant, User, Membership, Session, SessionClaim, ExternalIdentity, AuditEvent, Invitation,
  is_super_administrator, active_status,
}
use clinks.Stores.{
  SessionIdentityStore, ExternalIdentityStore, TenantProvisioner, MembershipSessionReader,
  RoleLookup, InvitationStore, PasswordHasher, SessionIssuer,
}

pub record Auth (W : Type 0) : Type 0 where
  pub runtime : Runtime
  pub identities : SessionIdentityStore W
  pub federation : ExternalIdentityStore W
  pub provisioner : TenantProvisioner W
  pub memberships : MembershipSessionReader W
  pub roles : RoleLookup W
  pub invitations : InvitationStore W
  pub passwords : PasswordHasher W
  pub sessions : SessionIssuer W
  pub append_audit_event : AuditEvent → Act W (Unit {0})
  pub new_invitation_id : Act W Str
  pub token_of : Invitation → Act W Str
  pub link_url : Str → Str
  pub invite_ttl : ℕ
  pub now : W → ℕ

-- The identifier of an optional tenant, `tenantID`.
abbrev pub tenant_id : Option Tenant → Option Str
tenant_id none = none
tenant_id (some t) = some t.id

-- The loop that keeps the active memberships.
unfoldable pub active_memberships : List Membership → List Membership
active_memberships = keep (λ m. same m.status active_status)

-- The loop that looks for the active tenant.
unfoldable pub tenant_among : Str → List Membership → Option Tenant
tenant_among id [] = none
tenant_among id (m ∷ ms) = if same m.tenant.id id then some m.tenant else tenant_among id ms

abbrev or_unauthorized : {A : Type 0} → Option A → Result A
or_unauthorized none = err (domain unauthorized)
or_unauthorized (some a) = ok a

abbrev first_tenant : List Membership → Option Tenant
first_tenant [] = none
first_tenant (m ∷ ms) = some m.tenant

-- The tenant of a session: the first one, or the one asked for.
abbrev chosen_tenant : Option Str → List Membership → Option Tenant
chosen_tenant none ms = first_tenant ms
chosen_tenant (some id) ms = tenant_among id ms

-- `sameUserSession`.
unfoldable pub same_user_session : SessionClaim → User → Bool
same_user_session claim user =
    same claim.user_id user.id && claim.session_version == user.session_version

abbrev bare_session : User → Session
bare_session user = record { token = []; user = user; active_tenant = none; memberships = [] }

abbrev pick_tenant : User → List Membership → Option Tenant → Result Session
pick_tenant user ms none = err (domain unauthorized)
pick_tenant user ms (some t) =
    ok (record { token = []; user = user; active_tenant = some t; memberships = ms })

-- The end of `sessionForUser`, on the active memberships; without one there is no tenant to choose.
unfoldable pub select_session : User → Option Str → List Membership → Result Session
unfolding tenant_among
select_session user requested active = pick_tenant user active (chosen_tenant requested active)

module _ {W : Type 0} (auth : Auth W) where
  unfoldable pub session_for_user : User → Option Str → Act W Session
  unfolding select_session active_memberships
  session_for_user user requested w =
      if is_super_administrator user.global_role
      then (ok (bare_session user), w)
      else (do
        memberships ← auth.memberships.memberships_for_user user.id
        λ w'. (select_session user requested (active_memberships memberships), w'))
          w

  abbrev pub claim_of : Session → SessionClaim
  claim_of session = record {
    user_id = session.user.id;
    active_tenant_id = tenant_id session.active_tenant;
    session_version = session.user.session_version;
  }

  unfoldable pub issue : Session → Act W Session
  issue session = do
    token ← or_reject (auth.sessions.issue (claim_of session)) internal
    pure (record session { token = token })

  unfoldable pub require_tenant_permission : Str → Str → Str → Act W Membership
  require_tenant_permission user_id tenant_id permission = do
    membership ← auth.memberships.find_active_membership user_id tenant_id
    permissions ← auth.roles.permissions_for_role tenant_id membership.role_id
    require_that (contains permissions permission) unauthorized
    pure membership

  unfoldable pub append_audit : Str → Option Str → Str → Str → Act W (Unit {0})
  append_audit actor_id tenant action target w =
      auth.append_audit_event
        (record {
          occurred_at = auth.now w;
          actor_id = some actor_id;
          tenant_id = tenant;
          action = trim_space action;
          target = trim_space target;
        })
        w
