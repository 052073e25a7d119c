-- ===== src/Outbox/Life.antt =====
-- Any sequence of calls on the outbox of server/postgres: each call is one transaction.
use clinks.Prelude.{
  ℕ, ◌+◌, ◌≡◌, refl, inl, inr, Bool, List, [], ◌∷◌, ◌++◌, Option, none, some, All, Option-cases,
  is_some, if_either, leb,
}
use clinks.Text.{Str, str, same}
use clinks.Errors.{Err, Result, ok, err, Result-cases, error_text}
use clinks.Exec.{Act, lift, pure, Keeps, >>=-Keeps, require_that-Keeps}
use clinks.Domain.{Invitation, OutboxJob, delivery_sent, delivery_failed, delivery_retrying}
use clinks.Sql.{update_where, first_where, transaction}
use clinks.Outbox.{
  find_invitation_row, Outbox, OutboxRow, is_processing, claim_invitation_email, claim_tx,
  take_candidate, candidate, claimed_row, maximum_attempts,
}
use clinks.Outbox.Settle.{
  complete, complete_tx, retry, retry_tx, dead_letter_tx, settle, held_by, enqueue_invitation_email,
  revoke_invitation_tx, revoke_row, completed_row, retried_row, dead_row, undelivered_for,
  retry_delay, mark_delivery, insert_audit_event, cancel_jobs, open_for,
}
use clinks.Outbox.Holders.{settle_lost, settle_held}

pub data Request : Type 0 where
  claims : Result Str → Request
  completes : OutboxJob → Request
  retries : OutboxJob → Option Err → ℕ → Result Str → Request
  enqueues : Invitation → Result Str → Request
  revokes : Str → Str → Result Str → Request
  waits : ℕ → Request

pub perform : Request → Outbox → Outbox
perform (claims uuid) db = (claim_invitation_email uuid db).1
perform (completes job) db = (complete job db).1
perform (retries job cause clock event_id) db = (retry job cause clock event_id db).1
perform (enqueues invitation uuid) db =
    (transaction (enqueue_invitation_email invitation uuid) db).1
perform (revokes id actor_id event_id) db =
    (transaction (revoke_invitation_tx id actor_id event_id) db).1
perform (waits n) db = record db { now = db.now + n }

pub run_requests : List Request → Outbox → Outbox
unfolding perform
run_requests [] db = db
run_requests (q ∷ qs) db = run_requests qs (perform q db)

-- A row has a lease and the time of its lock just while it is processing.
pub record LeaseSound (row : OutboxRow) : Type 0 where
  pub lease : is_some row.lease_token ≡ is_processing row.status
  pub lock : is_some row.locked_at ≡ is_processing row.status

abbrev AllSound : List OutboxRow → Type 0
AllSound rows = All LeaseSound rows

-- An update that leaves sound rows only.
update_where-AllSound :
    (p : OutboxRow → Bool) (f : OutboxRow → OutboxRow) (rows : List OutboxRow)
    → ((r : OutboxRow) → LeaseSound (f r))
    → AllSound rows
    → AllSound (update_where p f rows)
update_where-AllSound p f [] s a = tt
update_where-AllSound p f (x ∷ xs) s (h, a) =
    (if_either LeaseSound (p x) (s x) h, update_where-AllSound p f xs s a)

append-AllSound :
    (rows : List OutboxRow) (row : OutboxRow)
    → LeaseSound row
    → AllSound rows
    → AllSound (rows ++ row ∷ [])
append-AllSound [] row s a = (s, tt)
append-AllSound (x ∷ xs) row s (h, a) = (h, append-AllSound xs row s a)

abbrev Sound : Outbox → Type 0
Sound db = All LeaseSound db.jobs

transaction-Sound : {A : Type 0} (m : Act Outbox A) → Keeps Sound m → Keeps Sound (transaction m)
transaction-Sound m k = record {
  keeps = λ db a. elim (Result-cases (m db).0) [
    | inl (x, e) ↦ rw e (k.keeps db a)
    | inr (x, e) ↦ rw e a
  ];
}

settle-Sound :
    (job : OutboxJob) (f : OutboxRow → OutboxRow)
    → ((r : OutboxRow) → LeaseSound (f r))
    → Keeps Sound (settle job f)
settle-Sound job f s = record {
  keeps = λ db a. elim (Option-cases (first_where (held_by job) db.jobs)) [
    | inl n ↦ rw (settle_lost job f db n) a
    | inr (row, e) ↦
        rw (settle_held job f db row e) (update_where-AllSound (held_by job) f db.jobs s a)
  ];
}

take_candidate-Sound : (lease : Str) → Keeps Sound (take_candidate lease)
unfolding take_candidate
take_candidate-Sound lease = record {
  keeps = λ db a. elim (Option-cases (candidate db.now db.jobs)) [
    | inl n ↦ rw (n, take_candidate) a
    | inr (row, e) ↦
        rw (e, take_candidate)
          (update_where-AllSound (λ r. same r.id row.id) (claimed_row db.now lease) db.jobs
            (λ r. record { lease = refl; lock = refl }) a)
  ];
}

claim-Sound : (uuid : Result Str) → Keeps Sound (claim_tx uuid)
unfolding claim_tx
claim-Sound uuid =
    >>=-Keeps Sound (lift uuid) _ (record { keeps = λ db a. a })
      (λ lease. >>=-Keeps Sound _ _ (take_candidate-Sound lease) (λ job.
        >>=-Keeps Sound (find_invitation_row job.invitation_id)
          (λ invitation. pure (job, invitation)) (record { keeps = λ db a. a })
          (λ invitation. record { keeps = λ db a. a })))

clock-Sound : Keeps Sound (λ db. (ok db.now, db))
clock-Sound = record { keeps = λ db a. a }

marked-Sound : (id status : Str) → Keeps Sound (mark_delivery id status)
marked-Sound id status = record { keeps = λ db a. a }

audited-Sound :
    (uuid : Result Str) (actor tenant : Option Str) (action target : Str)
    → Keeps Sound (insert_audit_event uuid actor tenant action target)
audited-Sound (ok id) actor tenant action target = record { keeps = λ db a. a }
audited-Sound (err e) actor tenant action target = record { keeps = λ db a. a }

complete-Sound : (job : OutboxJob) → Keeps Sound (complete_tx job)
unfolding complete_tx
complete-Sound job = >>=-Keeps Sound _ _ clock-Sound (λ now.
    >>=-Keeps Sound _ _
      (settle-Sound job (completed_row now) (λ r. record { lease = refl; lock = refl }))
      (λ row. marked-Sound row.invitation_id delivery_sent))

retry_tx-Sound : (job : OutboxJob) (cause : Err) (at : ℕ) → Keeps Sound (retry_tx job cause at)
unfolding retry_tx
retry_tx-Sound job cause at = >>=-Keeps Sound _ _ clock-Sound (λ now.
    >>=-Keeps Sound _ _
      (settle-Sound job (retried_row now at (error_text cause))
        (λ r. record { lease = refl; lock = refl }))
      (λ row. marked-Sound row.invitation_id delivery_retrying))

dead_letter-Sound :
    (job : OutboxJob) (cause : Err) (uuid : Result Str)
    → Keeps Sound (dead_letter_tx job cause uuid)
unfolding dead_letter_tx
dead_letter-Sound job cause uuid = >>=-Keeps Sound _ _ clock-Sound (λ now.
    >>=-Keeps Sound _ _
      (settle-Sound job (dead_row now (error_text cause))
        (λ r. record { lease = refl; lock = refl }))
      (λ row.
        >>=-Keeps Sound _ _ (marked-Sound row.invitation_id delivery_failed)
          (λ u. audited-Sound uuid none (some row.tenant_id) (str "outbox.dead_letter") job.id)))

retry-Sound :
    (job : OutboxJob) (cause : Option Err) (clock : ℕ) (uuid : Result Str)
    → Keeps Sound (retry job cause clock uuid)
unfolding retry
retry-Sound job none clock uuid = record { keeps = λ db a. a }
retry-Sound job (some cause) clock uuid = >>=-Keeps Sound _ _ (require_that-Keeps Sound _ _) (λ u.
    if_either (Keeps Sound) (leb maximum_attempts job.attempts)
      (transaction-Sound _ (dead_letter-Sound job cause uuid))
      (transaction-Sound _ (retry_tx-Sound job cause (clock + retry_delay job.attempts))))

revoke_row-Sound : (id : Str) → Keeps Sound (revoke_row id)
unfolding revoke_row
revoke_row-Sound id = record {
  keeps = λ db a. elim (Option-cases (first_where (open_for id) db.invitations)) [
    | inl n ↦ rw (n, revoke_row) a
    | inr (row, e) ↦ rw (e, revoke_row) a
  ];
}

cancel_jobs-Sound : (id : Str) → Keeps Sound (cancel_jobs id)
cancel_jobs-Sound id = record {
  keeps = λ db a.
      update_where-AllSound (undelivered_for id) (dead_row db.now (str "invitation revoked"))
        db.jobs (λ r. record { lease = refl; lock = refl }) a;
}

revoke-Sound :
    (id actor_id : Str) (uuid : Result Str) → Keeps Sound (revoke_invitation_tx id actor_id uuid)
unfolding revoke_invitation_tx
revoke-Sound id actor_id uuid = >>=-Keeps Sound _ _ (revoke_row-Sound id) (λ row.
    >>=-Keeps Sound _ _ (cancel_jobs-Sound id) (λ u.
      audited-Sound uuid (some actor_id) (some row.tenant_id) (str "invitation.revoked") row.email))

enqueue-Sound :
    (invitation : Invitation) (uuid : Result Str)
    → Keeps Sound (enqueue_invitation_email invitation uuid)
unfolding enqueue_invitation_email
enqueue-Sound invitation (ok id) = record {
  keeps = λ db a. append-AllSound db.jobs _ (record { lease = refl; lock = refl }) a;
}
enqueue-Sound invitation (err e) = record { keeps = λ db a. a }

perform-Sound : (q : Request) (db : Outbox) → Sound db → Sound (perform q db)
unfolding perform claim_invitation_email complete
perform-Sound (claims uuid) db a = (transaction-Sound _ (claim-Sound uuid)).keeps db a
perform-Sound (completes job) db a =
    (>>=-Keeps Sound _ _ (require_that-Keeps Sound _ _)
        (λ u. transaction-Sound _ (complete-Sound job))).keeps
      db a
perform-Sound (retries job cause clock uuid) db a = (retry-Sound job cause clock uuid).keeps db a
perform-Sound (enqueues invitation uuid) db a =
    (transaction-Sound _ (enqueue-Sound invitation uuid)).keeps db a
perform-Sound (revokes id actor_id uuid) db a =
    (transaction-Sound _ (revoke-Sound id actor_id uuid)).keeps db a
perform-Sound (waits n) db a = a

-- Whatever calls are made, in whatever order, on tables in which each job has a lease and a lock time
-- just while it is processing, this holds of every job afterwards.
pub run_requests-LeaseSound :
    (qs : List Request) (db : Outbox)
    → All LeaseSound db.jobs
    → All LeaseSound (run_requests qs db).jobs
unfolding run_requests
run_requests-LeaseSound [] db a = a
run_requests-LeaseSound (q ∷ qs) db a =
    run_requests-LeaseSound qs (perform q db) (perform-Sound q db a)
