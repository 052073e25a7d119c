-- ===== src/Auth/Invitations.antt =====
-- auth_invitation.go: creating, finding and accepting an invitation.
use clinks.Prelude.{ℕ, ◌+◌, Bool, true, false, not, [], ◌∷◌, Option, none, some, if◌then◌else◌}
use clinks.Text.{Str, same, is_empty, trim_space}
use clinks.Errors.{
  invalid_credentials, unauthorized, validation, internal, invitation_invalid, invitation_used,
  invitation_expired, invite_email_mismatch, domain, Result, ok, err, fails, is_invalid_credentials,
}
use clinks.Exec.{Act, pure, lift, attempt, or_reject, require_that, ◌>>=◌, ◌>>◌}
use clinks.Runtime.{Runtime}
use clinks.Validation.{valid_uuid, validate_password}
use clinks.Email.{parse_email}
use clinks.Localization.{new_locale, locale_is_valid}
use clinks.Permission.{user_manage}
use clinks.Domain.{
  Tenant, User, Membership, Session, Invitation, is_super_administrator, is_used, is_expired,
  delivery_queued, global_user,
}
use clinks.Auth.{Auth, require_tenant_permission, issue}

unfoldable pub invitation_hash : Runtime → Str → Str
invitation_hash rt token = rt.base64 (rt.sha256 (trim_space token))

abbrev tenant_or_unauthorized : Option Tenant → Result Tenant
tenant_or_unauthorized none = err (domain unauthorized)
tenant_or_unauthorized (some t) = ok t

-- The tenant that a session acts for, which a super administrator has not.
abbrev pub acting_tenant : Session → Result Tenant
acting_tenant session =
    if is_super_administrator session.user.global_role
    then err (domain unauthorized)
    else tenant_or_unauthorized session.active_tenant

-- What accepting an invitation by password found out about the user: an existing user, or a new one
-- with the hash of the password.
pub record Acceptor : Type 0 where
  pub user : User
  pub password_hash : Str
  pub existing_user : Bool

abbrev pub new_user : Str → Str → User
new_user email locale = record {
  id = [];
  email = email;
  global_role = global_user;
  locale = locale;
  session_version = 1;
}

-- The session of a user who has just joined a tenant.
abbrev pub joined : User × Membership → Session
joined (user, membership) = record {
  token = [];
  user = user;
  active_tenant = some membership.tenant;
  memberships = membership ∷ [];
}

-- The checks of `findInvitation` on the invitation found.
abbrev pub usable : Invitation → ℕ → Result Invitation
usable invitation now =
    if is_used invitation
    then err (domain invitation_used)
    else if is_expired invitation now
    then err (domain invitation_expired)
    else ok invitation

module _ {W : Type 0} (auth : Auth W) where
  unfoldable pub new_invitation : Str → Str → Str → Str → Str → Act W (Invitation × Str)
  new_invitation actor_id tenant_id email role_id locale = do
    id ← or_reject auth.new_invitation_id internal
    issued_at ← λ w. (ok (auth.now w), w)
    let invitation : Invitation = record {
      id = id;
      tenant_id = tenant_id;
      email = email;
      role_id = role_id;
      role = none;
      token_hash = [];
      expires_at = issued_at + auth.invite_ttl;
      used_at = none;
      revoked_at = none;
      created_by = actor_id;
      acceptance = [];
      delivery_status = delivery_queued;
      locale = locale;
      created_at = 0;
    }
    raw_token ← or_reject (auth.token_of invitation) internal
    pure (record invitation { token_hash = invitation_hash auth.runtime raw_token }, raw_token)

  unfoldable pub create_invitation : Session → Str → Str → Act W Invitation
  create_invitation session raw_email role_id = do
    require_that (valid_uuid role_id) validation
    tenant ← lift (acting_tenant session)
    require_tenant_permission auth session.user.id tenant.id user_manage
    role ← auth.roles.find_role tenant.id role_id
    email ← lift (parse_email auth.runtime raw_email)
    made ← new_invitation session.user.id tenant.id email role_id session.user.locale
    stored ← auth.invitations.create_invitation (record (made.0) { role = some role })
    pure (record stored { acceptance = auth.link_url made.1 })

  unfoldable pub find_invitation : Str → Act W Invitation
  find_invitation token = do
    let token' = trim_space token
    require_that (not (is_empty token')) invitation_invalid
    invitation ← auth.invitations.find_invitation (invitation_hash auth.runtime token')
    λ w. (usable invitation (auth.now w), w)

  unfoldable pub new_acceptor : Str → Str → Str → Act W Acceptor
  new_acceptor email password locale = do
    password_hash ← or_reject (auth.passwords.hash password) internal
    pure (record {
      user = new_user email locale;
      password_hash = password_hash;
      existing_user = false;
    })

  -- The `switch` over what `FindByEmail` returned.
  unfoldable pub acceptor : Str → Str → Str → Result (User × Str) → Act W Acceptor
  unfolding new_acceptor
  acceptor email password locale (ok (user, current_hash)) = do
    require_that (not (is_super_administrator user.global_role)) unauthorized
    require_that (auth.passwords.verify password current_hash) invalid_credentials
    pure (record { user = user; password_hash = []; existing_user = true })
  acceptor email password locale (err e) =
      if is_invalid_credentials e then new_acceptor email password locale else λ w. (err e, w)

  unfoldable pub accept_invitation : Str → Str → Str → Str → Act W Session
  unfolding acceptor
  accept_invitation token raw_email password locale = do
    email ← or_reject (lift (parse_email auth.runtime raw_email)) validation
    require_that (not (fails (validate_password password))) validation
    let locale' = new_locale auth.runtime.tables locale
    require_that (locale_is_valid locale') validation
    invitation ← find_invitation token
    require_that (same invitation.email email) invite_email_mismatch
    found ← attempt (auth.identities.find_by_email email)
    who ← acceptor email password locale' found
    accepted ← auth.invitations.accept_invitation (record {
      invitation = invitation;
      user = who.user;
      password_hash = who.password_hash;
      existing_user = who.existing_user;
    })
    issue auth (joined accepted)
