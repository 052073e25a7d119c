-- ===== src/Outbox.antt =====
-- server/postgres/outbox.go over the table `outbox_jobs` of migrations/000001_schema.sql, with the
-- statements of postgres/invitations.go and postgres/invitation_administration.go that write to that
-- table. A transaction is one step: it commits what it wrote, or restores the tables. What
-- `uuid.NewV7` answered is an argument, as is the reading of the clock of the process; `now` is the
-- clock of the database. Statements do not fail but for finding no row. The table has one kind of job
-- by its check, so the test of the kind is left out; rows locked by another transaction do not occur.
pub mod Settle
pub mod Leases
pub mod Claims
pub mod Holders
pub mod Life
pub mod Delay
pub mod Tests
use clinks.Prelude.{
  ℕ, ◌+◌, ◌-◌, ◌*◌, ◌^◌, min, max, Bool, true, false, ◌&&◌, ◌||◌, not, List, [], ◌∷◌, ◌++◌, Option,
  none, some, is_some, ltb, leb, ◌==◌, if◌then◌else◌, map,
}
use clinks.Sql.{update_where, first_where, transaction}
use clinks.Text.{precedes, Str, str, same}
use clinks.Errors.{
  Err, domain, plain, wrap, join, validation, lease_lost, invitation_invalid, Result, ok, err,
  error_text,
}
use clinks.Exec.{Act, pure, lift, require_that, ◌>>=◌, ◌>>◌}
use clinks.Validation.{valid_uuid}
use clinks.Domain.{
  Invitation, OutboxJob, AuditEvent, delivery_sent, delivery_retrying, delivery_failed, is_used,
}

pub data JobStatus : Type 0 where
  pending processing completed dead_letter : JobStatus

abbrev pub is_pending : JobStatus → Bool
is_pending pending = true
is_pending _ = false

abbrev pub is_processing : JobStatus → Bool
is_processing processing = true
is_processing _ = false

-- `outboxMaximumAttempts`.
abbrev pub maximum_attempts : ℕ
maximum_attempts = 5

abbrev pub second : ℕ
second = 1000000000

abbrev pub minute : ℕ
minute = 60 * second

abbrev pub hour : ℕ
hour = 60 * minute

-- `outboxLockSeconds` in nanoseconds.
abbrev pub lock_time : ℕ
lock_time = 10 * 60 * second

pub record OutboxRow : Type 0 where
  pub id : Str
  pub tenant_id : Str
  pub invitation_id : Str
  pub status : JobStatus
  pub attempts : ℕ
  pub available_at : ℕ
  pub locked_at : Option ℕ
  pub lease_token : Option Str
  pub completed_at : Option ℕ
  pub dead_lettered_at : Option ℕ
  pub last_error : Option Str
  pub created_at : ℕ
  pub updated_at : ℕ

pub record Outbox : Type 0 where
  pub jobs : List OutboxRow
  pub invitations : List Invitation
  pub audits : List AuditEvent
  pub now : ℕ

-- `pgx.ErrNoRows`, and `errors.Is` for it.
abbrev pub no_rows : Err
no_rows = plain (str "no rows in result set")

abbrev pub is_no_rows : Err → Bool
is_no_rows (domain k) = false
is_no_rows (plain s) = same s (str "no rows in result set")
is_no_rows (wrap s e) = is_no_rows e
is_no_rows (join a b) = is_no_rows a || is_no_rows b

-- The order `available_at, created_at, id`.
unfoldable pub before : OutboxRow → OutboxRow → Bool
before a b =
    ltb a.available_at b.available_at
    || (a.available_at == b.available_at
        && (ltb a.created_at b.created_at || (a.created_at == b.created_at && precedes a.id b.id)))

-- `locked_at < now() - make_interval(…)`, which is not true of a null.
abbrev pub lock_expired : ℕ → Option ℕ → Bool
lock_expired now none = false
lock_expired now (some t) = ltb (t + lock_time) now

unfoldable pub due : ℕ → OutboxRow → Bool
due now row =
    (is_pending row.status && leb row.available_at now)
    || (is_processing row.status && lock_expired now row.locked_at)

abbrev pub sooner : OutboxRow → Option OutboxRow → OutboxRow
sooner row none = row
sooner row (some other) = if before other row then other else row

unfoldable pub candidate : ℕ → List OutboxRow → Option OutboxRow
candidate now [] = none
candidate now (row ∷ rows) =
    let later = candidate now rows in if due now row then some (sooner row later) else later

abbrev pub claimed_row : ℕ → Str → OutboxRow → OutboxRow
claimed_row now lease row = record row {
  status = processing;
  attempts = row.attempts + 1;
  locked_at = some now;
  lease_token = some lease;
  updated_at = now;
}

abbrev pub job_of : OutboxRow → Str → OutboxJob
job_of row lease = record {
  id = row.id;
  tenant_id = row.tenant_id;
  invitation_id = row.invitation_id;
  attempts = row.attempts + 1;
  lease_token = lease;
}

-- The `UPDATE … FROM candidate … RETURNING` of a claim.
unfoldable pub take_candidate : Str → Act Outbox OutboxJob
take_candidate lease db = elim (candidate db.now db.jobs) [
  | none ↦ (err no_rows, db)
  | some row ↦ (
    ok (job_of row lease),
    record db { jobs = update_where (λ r. same r.id row.id) (claimed_row db.now lease) db.jobs },
  )
]

-- The columns of `invitationSelect`: the other fields keep their zero values.
abbrev pub scanned : Invitation → Invitation
scanned row = record row { role = none; acceptance = []; created_at = 0 }

abbrev scan_result : Option Invitation → Result Invitation
scan_result none = err no_rows
scan_result (some row) = ok (scanned row)

abbrev pub find_invitation_row : Str → Act Outbox Invitation
find_invitation_row id db = (scan_result (first_where (λ i. same i.id id) db.invitations), db)

unfoldable pub claim_tx : Result Str → Act Outbox (OutboxJob × Invitation)
claim_tx uuid = do
  lease ← lift uuid
  job ← take_candidate lease
  invitation ← find_invitation_row job.invitation_id
  pure (job, invitation)

abbrev no_job : OutboxJob
no_job = record { id = []; tenant_id = []; invitation_id = []; attempts = 0; lease_token = [] }

-- `clinks.Invitation{}`.
abbrev no_invitation : Invitation
no_invitation = record {
  id = [];
  tenant_id = [];
  email = [];
  role_id = [];
  role = none;
  token_hash = [];
  expires_at = 0;
  used_at = none;
  revoked_at = none;
  created_by = [];
  acceptance = [];
  delivery_status = [];
  locale = [];
  created_at = 0;
}

abbrev claim_result : Result (OutboxJob × Invitation) → Result (OutboxJob × Invitation)
claim_result (ok r) = ok r
claim_result (err e) =
    if is_no_rows e then ok (no_job, no_invitation) else err (wrap (str "claim invitation email") e)

unfoldable pub claim_invitation_email : Result Str → Act Outbox (OutboxJob × Invitation)
unfolding claim_tx
claim_invitation_email uuid db =
    let (r, db') = transaction (claim_tx uuid) db in (claim_result r, db')
