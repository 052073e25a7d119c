-- ===== src/Tables/Invitations.antt =====
-- server/postgres/invitations.go: finding an invitation and the transaction that accepts one.
-- `createMembership` is in `Tables.Joining`.
pub mod Frame
pub mod Settled
pub mod Acceptance
pub mod Expiry
pub mod Spent
pub mod Once
pub mod Tests
use clinks.Prelude.{
  ℕ, ◌+◌, Bool, true, false, ◌&&◌, ◌||◌, not, List, [], ◌∷◌, ◌++◌, Option, none, some, is_some, leb,
  if◌then◌else◌,
}
use clinks.Text.{Str, str, same, is_empty}
use clinks.Errors.{
  validation, unauthorized, conflict, user_not_found, role_not_found, invitation_invalid,
  invitation_used, invitation_expired, invite_email_mismatch, domain, plain, wrap, Err, Result, ok,
  err,
}
use clinks.Exec.{Act, pure, lift, require_that, ◌>>=◌, ◌>>◌}
use clinks.Validation.{valid_uuid}
use clinks.Localization.{locale_is_valid}
use clinks.Sql.{update_where, first_where, any_where, row_or, transaction}
use clinks.Domain.{
  Tenant, Role, User, Membership, Invitation, ExternalIdentity, PasswordInvitationAcceptance,
  ExternalInvitationAcceptance, is_super_administrator, global_user, active_status, inactive_status,
  delivery_queued,
}
use clinks.Tables.{Tables, UserRow, MembershipRow, audit, rotated, tenant_transaction}
use clinks.Tables.Joining.{create_membership}
use clinks.Tables.Users.{insert_user, insert_identity, rotate, at_id}

pub record InvitationAcceptance : Type 0 where
  pub invitation : Invitation
  pub user : User
  pub password_hash : Str
  pub existing_user : Bool
  pub identity : Option ExternalIdentity

-- What `newUUID` answers in one call: for a user, a membership and an audit event.
pub record Uuids : Type 0 where
  pub user : Result Str
  pub membership : Result Str
  pub event : Result Str

-- `invitationSelect` and the columns of `lockedInvitation`.
abbrev pub scanned : Invitation → Invitation
scanned row = record row { role = none; acceptance = []; created_at = 0 }

abbrev pub has_hash : Str → Invitation → Bool
has_hash hash row = same row.token_hash hash

-- A null hash is the empty text here, and equals no hash.
abbrev pub by_hash : Str → Tables → Option Invitation
by_hash hash db = if is_empty hash then none else first_where (has_hash hash) db.invitations

abbrev found_or_invalid : Option Invitation → Result Invitation
found_or_invalid none = err (domain invitation_invalid)
found_or_invalid (some row) = ok (scanned row)

unfoldable pub find_invitation : Str → Act Tables Invitation
find_invitation hash = transaction (λ db. (found_or_invalid (by_hash hash db), db))

abbrev pub usable_now : ℕ → Option Invitation → Result Invitation
usable_now now none = err (domain invitation_invalid)
usable_now now (some row) =
    if is_some row.used_at
    then err (domain invitation_used)
    else if is_some row.revoked_at
    then err (domain invitation_invalid)
    else if leb row.expires_at now
    then err (domain invitation_expired)
    else ok (scanned row)

unfoldable pub locked_invitation : Str → Act Tables Invitation
locked_invitation hash db = (usable_now db.now (by_hash hash db), db)

abbrev pub stored_user : User → Option UserRow → Result User
stored_user user none = err (domain user_not_found)
stored_user user (some row) =
    if not (same row.user.email user.email) || is_super_administrator row.user.global_role
    then err (domain unauthorized)
    else ok row.user

unfoldable pub existing_identity : User → Act Tables User
existing_identity user = do
  require_that (valid_uuid user.id) validation
  λ db. (stored_user user (first_where (at_id user.id) db.users), db)

abbrev stored_hash : Str → Option Str
stored_hash hash = if is_empty hash then none else some hash

unfoldable pub new_identity : User → Str → Result Str → Act Tables User
new_identity user password_hash uuid = do
  id ← lift uuid
  let user' = record user { id = id; global_role = global_user }
  insert_user user' (stored_hash password_hash)
  pure user'

unfoldable pub accept_identity : User → Str → Bool → Result Str → Act Tables User
unfolding existing_identity new_identity
accept_identity user password_hash existing_user uuid =
    if existing_user then existing_identity user else new_identity user password_hash uuid

-- `linkInvitationIdentity`, where there is an identity.
unfoldable pub link_identity : User → Option ExternalIdentity → Act Tables (Unit {0})
link_identity user none = pure tt
link_identity user (some identity) = do
  require_that (same identity.email user.email) invite_email_mismatch
  insert_identity user.id identity

abbrev pub unused : Str → Invitation → Bool
unused id row = same row.id id && not (is_some row.used_at)

abbrev pub used_row : ℕ → Invitation → Invitation
used_row now row = record row { used_at = some now }

unfoldable pub mark_invitation_used : Str → Act Tables (Unit {0})
mark_invitation_used id db =
    if any_where (unused id) db.invitations
    then (
      ok tt,
      record db { invitations = update_where (unused id) (used_row db.now) db.invitations },
    )
    else (err (domain invitation_used), db)

abbrev pub rotation_failed : Err
rotation_failed = wrap (str "rotate accepted user session") (plain (str "no rows in result set"))

-- An existing user gets a new session version.
unfoldable pub rotate_existing : Bool → User → Act Tables User
rotate_existing false user = pure user
rotate_existing true user = do
  row ← rotate rotation_failed user.id
  pure (record user { session_version = row.session_version })

unfoldable pub accept_invitation_tx : InvitationAcceptance → Uuids → Act Tables (User × Membership)
accept_invitation_tx acceptance uuids = do
  invitation ← locked_invitation acceptance.invitation.token_hash
  require_that (same invitation.email acceptance.user.email) invite_email_mismatch
  user ←
      accept_identity acceptance.user acceptance.password_hash acceptance.existing_user uuids.user
  link_identity user acceptance.identity
  membership ← create_membership invitation user.id uuids.membership
  user' ← rotate_existing acceptance.existing_user user
  mark_invitation_used invitation.id
  audit uuids.event (some user'.id) (some invitation.tenant_id) (str "invitation.accepted")
      user'.email
  pure (user', membership)

unfoldable pub accept : InvitationAcceptance → Uuids → Act Tables (User × Membership)
unfolding accept_invitation_tx
accept acceptance uuids = transaction (accept_invitation_tx acceptance uuids)

unfoldable pub accept_invitation :
    PasswordInvitationAcceptance → Uuids → Act Tables (User × Membership)
unfolding accept
accept_invitation acceptance = accept (record {
  invitation = acceptance.invitation;
  user = acceptance.user;
  password_hash = acceptance.password_hash;
  existing_user = acceptance.existing_user;
  identity = none;
})

unfoldable pub accept_external_invitation :
    ExternalInvitationAcceptance → Uuids → Act Tables (User × Membership)
unfolding accept
accept_external_invitation acceptance = accept (record {
  invitation = acceptance.invitation;
  user = acceptance.user;
  password_hash = [];
  existing_user = acceptance.existing_user;
  identity = some acceptance.identity;
})
