-- ===== src/Domain/Invites.antt =====
-- Invitations, the outbox job of an invitation email, and the status of an invitation.
use clinks.Prelude.{ℕ, Bool, not, ltb, Option, is_some, if◌then◌else◌}
use clinks.Text.{Str, str}
use clinks.Domain.Accounts.{Role, User, ExternalIdentity}

pub record Invitation : Type 0 where
  pub id : Str
  pub tenant_id : Str
  pub email : Str
  pub role_id : Str
  pub role : Option Role
  pub token_hash : Str
  pub expires_at : ℕ
  pub used_at : Option ℕ
  pub revoked_at : Option ℕ
  pub created_by : Str
  pub acceptance : Str
  pub delivery_status : Str
  pub locale : Str
  pub created_at : ℕ

pub record PasswordInvitationAcceptance : Type 0 where
  pub invitation : Invitation
  pub user : User
  pub password_hash : Str
  pub existing_user : Bool

pub record ExternalInvitationAcceptance : Type 0 where
  pub invitation : Invitation
  pub user : User
  pub identity : ExternalIdentity
  pub existing_user : Bool

pub record OutboxJob : Type 0 where
  pub id : Str
  pub tenant_id : Str
  pub invitation_id : Str
  pub attempts : ℕ
  pub lease_token : Str

pub record InvitationMessage : Type 0 where
  pub recipient : Str
  pub subject : Str
  pub body : Str

pub data InvitationStatus : Type 0 where
  pending used expired revoked : InvitationStatus

abbrev pub delivery_queued : Str
delivery_queued = str "queued"

abbrev pub delivery_retrying : Str
delivery_retrying = str "retrying"

abbrev pub delivery_sent : Str
delivery_sent = str "sent"

abbrev pub delivery_failed : Str
delivery_failed = str "failed"

-- `Invitation.IsExpired`: `!now.Before(expiresAt)`.
unfoldable pub is_expired : Invitation → ℕ → Bool
is_expired invitation now = not (ltb now invitation.expires_at)

-- `Invitation.IsUsed`.
unfoldable pub is_used : Invitation → Bool
is_used invitation = is_some invitation.used_at

-- `Invitation.Status`.
unfoldable pub status : Invitation → ℕ → InvitationStatus
unfolding is_used is_expired
status invitation now =
    if is_used invitation
    then used
    else if is_some invitation.revoked_at
    then revoked
    else if is_expired invitation now
    then expired
    else pending
