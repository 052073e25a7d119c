-- ===== src/Auth/Credentials.antt =====
-- auth_credentials.go: registration, login, the current session, logout and the change of tenant.
use clinks.Prelude.{Bool, true, false, ◌||◌, not, [], none, some, if◌then◌else◌}
use clinks.Text.{Str, str}
use clinks.Errors.{
  invalid_credentials, unauthorized, validation, internal, domain, Result, ok, err, fails,
}
use clinks.Exec.{Act, pure, lift, attempt, or_reject, require_that, ◌>>=◌, ◌>>◌}
use clinks.Validation.{valid_uuid, validate_password, normalize_tenant_name}
use clinks.Email.{parse_email}
use clinks.Localization.{new_locale, locale_is_valid}
use clinks.Domain.{User, Session, SessionClaim, is_super_administrator}
use clinks.Auth.{Auth, tenant_id, same_user_session, session_for_user, issue, append_audit}

abbrev empty_or : Result Str → Str
empty_or (ok s) = s
empty_or (err e) = []

module _ {W : Type 0} (auth : Auth W) where
  unfoldable pub register : Str → Str → Str → Str → Act W Session
  register raw_email password tenant_name locale = do
    email ← or_reject (lift (parse_email auth.runtime raw_email)) validation
    let locale' = new_locale auth.runtime.tables locale
    let name = normalize_tenant_name tenant_name
    require_that
        (not (fails (validate_password password) || not (locale_is_valid locale') || fails name))
        validation
    password_hash ← or_reject (auth.passwords.hash password) internal
    session ← auth.provisioner.create_tenant_owner (record {
      email = email;
      password_hash = password_hash;
      locale = locale';
      tenant_name = empty_or name;
    })
    issue auth session

  -- `err != nil || !sameUserSession(claim, user)`, after `FindByID`.
  abbrev current_user : SessionClaim → Result User → Result User
  current_user claim (err e) = err (domain invalid_credentials)
  current_user claim (ok user) =
      if same_user_session claim user then ok user else err (domain invalid_credentials)

  unfoldable pub current_session : Str → Act W Session
  current_session token = do
    claim ← or_reject (auth.sessions.verify token) invalid_credentials
    found ← attempt (auth.identities.find_by_id claim.user_id)
    user ← lift (current_user claim found)
    session ← session_for_user auth user claim.active_tenant_id
    pure (record session { token = token })

  unfoldable pub logout : Session → Act W (Unit {0})
  logout session = do
    require_that (valid_uuid session.user.id) invalid_credentials
    auth.identities.invalidate_session session.user.id

  unfoldable pub switch_tenant : Session → Str → Act W Session
  switch_tenant session requested = do
    require_that (valid_uuid requested) validation
    require_that (not (is_super_administrator session.user.global_role)) unauthorized
    membership ← auth.memberships.find_active_membership session.user.id requested
    version ← auth.identities.rotate_tenant_session session.user.id requested membership.tenant.name
    issue auth (record session {
      active_tenant = some membership.tenant;
      user = record (session.user) { session_version = version };
    })

  -- The checks of `login` on what `FindByEmail` found. Where it found nobody, the password is
  -- compared with the empty hash and the answer is dropped.
  unfoldable pub check_login : Str → Bool → Result (User × Str) → Result User
  check_login password require_super_admin (err e) = err (domain invalid_credentials)
  check_login password require_super_admin (ok (user, password_hash)) =
      let is_super = is_super_administrator user.global_role in
      if not (auth.passwords.verify password password_hash)
      then err (domain invalid_credentials)
      else if (if require_super_admin then not is_super else is_super)
      then err (domain invalid_credentials)
      else ok user

  unfoldable pub login_as : Str → Str → Bool → Act W Session
  unfolding check_login
  login_as raw_email password require_super_admin = do
    email ← or_reject (lift (parse_email auth.runtime raw_email)) invalid_credentials
    found ← attempt (auth.identities.find_by_email email)
    user ← lift (check_login password require_super_admin found)
    session ← session_for_user auth user none
    issued ← issue auth session
    append_audit auth user.id (tenant_id issued.active_tenant) (str "session.login") user.email
    pure issued

  unfoldable pub login : Str → Str → Act W Session
  unfolding login_as
  login email password = login_as email password false

  unfoldable pub login_super_admin : Str → Str → Act W Session
  unfolding login_as
  login_super_admin email password = login_as email password true
