-- ===== src/Tables/Invitations/Acceptance.antt =====
-- What accepting an invitation has achieved, in terms of the columns.
use mathlib.Core.List.{Mem}
use mathlib.Core.Logic.Or
use clinks.Prelude.{◌≡◌, ◌<◌, ℕ, List, [], ◌∷◌, none, some}
use clinks.Text.{Str}
use clinks.Domain.{User, Invitation, active_status}
use clinks.Tables.{Tables, MembershipRow}
use clinks.Tables.Invitations.Settled.{Settled}

-- An invitation that may be accepted.
pub record Open (hash email : Str) (now : ℕ) (row : Invitation) : Type 0 where
  pub hash_not_null : ¬ (hash ≡ [])
  pub same_hash : row.token_hash ≡ hash
  pub same_email : row.email ≡ email
  pub not_used : row.used_at ≡ none
  pub not_revoked : row.revoked_at ≡ none
  pub in_time : now < row.expires_at

-- Row by row: what was not used under the identifier is used now, and the rest is as it was.
pub data Marked (id : Str) (now : ℕ) : List Invitation → List Invitation → Type 0 where
  nothing : Marked id now [] []
  marked :
      {i : Invitation} {is js : List Invitation}
      → i.id ≡ id
      → i.used_at ≡ none
      → Marked id now is js
      → Marked id now (i ∷ is) (record i { used_at = some now } ∷ js)
  stays :
      {i : Invitation} {is js : List Invitation}
      → ¬ ((i.id ≡ id) × (i.used_at ≡ none))
      → Marked id now is js
      → Marked id now (i ∷ is) (i ∷ js)

-- A membership by which the user belongs to the tenant of an invitation, in its role.
pub record Belongs (invitation : Invitation) (user_id : Str) (rows : List MembershipRow)
    : Type 0 where
  pub row : MembershipRow
  pub listed : Mem row rows
  pub same_tenant : row.tenant_id ≡ invitation.tenant_id
  pub same_user : row.user_id ≡ user_id
  pub same_role : row.role_id ≡ invitation.role_id
  pub is_active : row.status ≡ active_status

pub record Accepted (hash email : Str) (before : Tables) (user : User) (after : Tables)
    : Type 0 where
  pub invitation : Invitation
  pub listed : Mem invitation before.invitations
  pub was_open : Open hash email before.now invitation
  pub is_used : Marked invitation.id before.now before.invitations after.invitations
  pub member : Belongs invitation user.id after.memberships
