-- ===== src/Outbox/Settle.antt =====
-- server/postgres/outbox.go: `Complete`, `Retry`, `deadLetter` and `retryDelay`; the statements that
-- enqueue a job (`enqueueInvitationEmail`) and cancel the jobs of a revoked invitation
-- (`revokeInvitationTx`).
use clinks.Prelude.{
  ℕ, ◌+◌, ◌-◌, ◌*◌, ◌^◌, min, max, Bool, false, ◌&&◌, ◌||◌, not, [], ◌∷◌, ◌++◌, Option, none, some,
  is_some, leb, if◌then◌else◌,
}
use clinks.Text.{Str, str, same}
use clinks.Errors.{
  Err, domain, plain, validation, lease_lost, invitation_invalid, Result, ok, err, error_text,
}
use clinks.Exec.{Act, raise, require_that, ◌>>=◌, ◌>>◌}
use clinks.Validation.{valid_uuid}
use clinks.Domain.{
  Invitation, OutboxJob, delivery_sent, delivery_retrying, delivery_failed, is_used,
}
use clinks.Sql.{update_where, first_where, transaction}
use clinks.Outbox.{
  Outbox, OutboxRow, JobStatus, pending, completed, dead_letter, is_pending, is_processing,
  maximum_attempts, minute, hour,
}

-- `retryDelay`, in nanoseconds. `1<<exponent` stays below 2⁷.
unfoldable pub retry_delay : ℕ → ℕ
retry_delay attempts = min (minute * 2 ^ min (max attempts 1 - 1) 6) hour

abbrev lease_is : Str → Option Str → Bool
lease_is token none = false
lease_is token (some t) = same t token

-- `WHERE id = $1 AND lease_token = … AND status = 'processing'`.
unfoldable pub held_by : OutboxJob → OutboxRow → Bool
held_by job row =
    same row.id job.id && lease_is job.lease_token row.lease_token && is_processing row.status

-- What all updates of a settled job have in common.
abbrev released : ℕ → JobStatus → OutboxRow → OutboxRow
released now status row = record row {
  status = status;
  locked_at = none;
  lease_token = none;
  updated_at = now;
}

abbrev pub completed_row : ℕ → OutboxRow → OutboxRow
completed_row now row = record (released now completed row) {
  completed_at = some now;
  last_error = none;
}

abbrev pub retried_row : ℕ → ℕ → Str → OutboxRow → OutboxRow
retried_row now available_at cause row = record (released now pending row) {
  available_at = available_at;
  last_error = some cause;
}

abbrev pub dead_row : ℕ → Str → OutboxRow → OutboxRow
dead_row now cause row = record (released now dead_letter row) {
  dead_lettered_at = some now;
  last_error = some cause;
}

-- `UPDATE outbox_jobs SET … RETURNING …`, with `ErrorLeaseLost` for no row.
unfoldable pub settle : OutboxJob → (OutboxRow → OutboxRow) → Act Outbox OutboxRow
settle job change db = elim (first_where (held_by job) db.jobs) [
  | none ↦ (err (domain lease_lost), db)
  | some row ↦ (ok row, record db { jobs = update_where (held_by job) change db.jobs })
]

abbrev pub mark_delivery : Str → Str → Act Outbox (Unit {0})
mark_delivery id status db = (
  ok tt,
  record db {
    invitations =
        update_where (λ i. same i.id id) (λ i. record i { delivery_status = status })
          db.invitations;
  },
)

-- `insertAuditEvent`, with what `newUUID` answered for the identifier of the event.
abbrev pub insert_audit_event :
    Result Str → Option Str → Option Str → Str → Str → Act Outbox (Unit {0})
insert_audit_event (err e) actor tenant action target db = (err e, db)
insert_audit_event (ok id) actor tenant action target db = (
  ok tt,
  record db {
    audits =
        db.audits
        ++ (record {
          occurred_at = db.now;
          actor_id = actor;
          tenant_id = tenant;
          action = action;
          target = target;
        })
          ∷ [];
  },
)

abbrev job_is_valid : OutboxJob → Bool
job_is_valid job = not (not (valid_uuid job.id) || not (valid_uuid job.lease_token))

unfoldable pub complete_tx : OutboxJob → Act Outbox (Unit {0})
complete_tx job = do
  now ← λ db. (ok db.now, db)
  row ← settle job (completed_row now)
  mark_delivery row.invitation_id delivery_sent

unfoldable pub complete : OutboxJob → Act Outbox (Unit {0})
unfolding complete_tx
complete job = do require_that (job_is_valid job) validation; transaction (complete_tx job)

unfoldable pub dead_letter_tx : OutboxJob → Err → Result Str → Act Outbox (Unit {0})
dead_letter_tx job cause event_id = do
  now ← λ db. (ok db.now, db)
  row ← settle job (dead_row now (error_text cause))
  mark_delivery row.invitation_id delivery_failed
  insert_audit_event event_id none (some row.tenant_id) (str "outbox.dead_letter") job.id

unfoldable pub retry_tx : OutboxJob → Err → ℕ → Act Outbox (Unit {0})
retry_tx job cause available_at = do
  now ← λ db. (ok db.now, db)
  row ← settle job (retried_row now available_at (error_text cause))
  mark_delivery row.invitation_id delivery_retrying

-- `Retry`. `clock` is what `time.Now` says, `event_id` the identifier of an audit event.
unfoldable pub retry : OutboxJob → Option Err → ℕ → Result Str → Act Outbox (Unit {0})
unfolding retry_tx dead_letter_tx retry_delay
retry job none clock event_id = raise (plain (str "retry outbox job: cause is required"))
retry job (some cause) clock event_id = do
  require_that (job_is_valid job) validation
  if leb maximum_attempts job.attempts
      then transaction (dead_letter_tx job cause event_id)
      else transaction (retry_tx job cause (clock + retry_delay job.attempts))

-- `enqueueInvitationEmail`, with the defaults of the table.
unfoldable pub enqueue_invitation_email : Invitation → Result Str → Act Outbox (Unit {0})
enqueue_invitation_email invitation (err e) db = (err e, db)
enqueue_invitation_email invitation (ok id) db = (
  ok tt,
  record db {
    jobs =
        db.jobs
        ++ (record {
          id = id;
          tenant_id = invitation.tenant_id;
          invitation_id = invitation.id;
          status = pending;
          attempts = 0;
          available_at = db.now;
          locked_at = none;
          lease_token = none;
          completed_at = none;
          dead_lettered_at = none;
          last_error = none;
          created_at = db.now;
          updated_at = db.now;
        })
          ∷ [];
  },
)

abbrev pub open_for : Str → Invitation → Bool
open_for id invitation =
    same invitation.id id && not (is_used invitation) && not (is_some invitation.revoked_at)

-- The first statement of `revokeInvitationTx`.
unfoldable pub revoke_row : Str → Act Outbox Invitation
unfolding is_used
revoke_row id db = elim (first_where (open_for id) db.invitations) [
  | none ↦ (err (domain invitation_invalid), db)
  | some row ↦ (
    ok row,
    record db {
      invitations =
          update_where (open_for id) (λ i. record i { revoked_at = some db.now }) db.invitations;
    },
  )
]

abbrev pub undelivered_for : Str → OutboxRow → Bool
undelivered_for id row =
    same row.invitation_id id && (is_pending row.status || is_processing row.status)

abbrev pub cancel_jobs : Str → Act Outbox (Unit {0})
cancel_jobs id db = (
  ok tt,
  record db {
    jobs = update_where (undelivered_for id) (dead_row db.now (str "invitation revoked")) db.jobs;
  },
)

unfoldable pub revoke_invitation_tx : Str → Str → Result Str → Act Outbox (Unit {0})
unfolding revoke_row
revoke_invitation_tx id actor_id event_id = do
  row ← revoke_row id
  cancel_jobs id
  insert_audit_event event_id (some actor_id) (some row.tenant_id) (str "invitation.revoked")
      row.email
