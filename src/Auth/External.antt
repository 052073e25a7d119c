-- ===== src/Auth/External.antt =====
-- auth_external.go: login by an external identity, linking one, and accepting an invitation by one.
use clinks.Prelude.{Bool, true, false, ◌||◌, not, none, if◌then◌else◌}
use clinks.Text.{Str, str, same, is_empty, trim_space, valid_string}
use clinks.Errors.{
  invalid_credentials, unauthorized, validation, invite_email_mismatch, domain, Result, ok, err,
  is_invalid_credentials,
}
use clinks.Exec.{Act, pure, lift, attempt, require_that, ◌>>=◌, ◌>>◌}
use clinks.Runtime.{Runtime}
use clinks.Email.{email_is_valid}
use clinks.Localization.{new_locale, locale_is_valid}
use clinks.Domain.{User, Session, ExternalIdentity, is_super_administrator}
use clinks.Auth.{Auth, tenant_id, session_for_user, issue, append_audit}
use clinks.Auth.Invitations.{find_invitation, joined, new_user}

-- `ExternalIdentity.Validate() == nil` (authentication.go).
unfoldable pub identity_is_valid : Runtime → ExternalIdentity → Bool
identity_is_valid rt identity =
    let issuer = trim_space identity.issuer in
    let subject = trim_space identity.subject in
    not (
      is_empty issuer
      || is_empty subject
      || not (valid_string issuer)
      || not (valid_string subject)
      || not (email_is_valid rt identity.email))

-- What `FindUser` returned; an error that holds invalid credentials is returned as just that.
abbrev federated : Result User → Result User
federated (ok user) = ok user
federated (err e) = if is_invalid_credentials e then err (domain invalid_credentials) else err e

-- What `FindByEmail` returned: an existing user, who is no super administrator, or a new one.
unfoldable pub external_acceptor : Str → Str → Result (User × Str) → Result (User × Bool)
external_acceptor email locale (ok (user, password_hash)) =
    if is_super_administrator user.global_role then err (domain unauthorized) else ok (user, true)
external_acceptor email locale (err e) =
    if is_invalid_credentials e then ok (new_user email locale, false) else err e

module _ {W : Type 0} (auth : Auth W) where
  unfoldable pub login_external : ExternalIdentity → Act W Session
  login_external identity = do
    require_that (identity_is_valid auth.runtime identity) validation
    found ← attempt (auth.federation.find_user identity.issuer identity.subject)
    user ← lift (federated found)
    require_that (not (is_super_administrator user.global_role)) unauthorized
    session ← session_for_user auth user none
    issued ← issue auth session
    append_audit auth user.id (tenant_id issued.active_tenant) (str "session.oidc_login") user.email
    pure issued

  unfoldable pub link_external_identity : Session → ExternalIdentity → Act W (Unit {0})
  link_external_identity session identity = do
    require_that (identity_is_valid auth.runtime identity) validation
    require_that
        (not (
          is_super_administrator session.user.global_role
          || not (same session.user.email identity.email)))
        unauthorized
    auth.federation.link_with_audit session.user.id identity (tenant_id session.active_tenant)

  unfoldable pub accept_external_invitation : Str → ExternalIdentity → Str → Act W Session
  accept_external_invitation token identity locale = do
    require_that (identity_is_valid auth.runtime identity) validation
    let locale' = new_locale auth.runtime.tables locale
    require_that (locale_is_valid locale') validation
    invitation ← find_invitation auth token
    require_that (same invitation.email identity.email) invite_email_mismatch
    found ← attempt (auth.identities.find_by_email identity.email)
    who ← lift (external_acceptor identity.email locale' found)
    accepted ← auth.invitations.accept_external_invitation (record {
      invitation = invitation;
      user = who.0;
      identity = identity;
      existing_user = who.1;
    })
    issue auth (joined accepted)
