-- ===== src/Worker/Handled.antt =====
-- What one run of the worker does with the job that it claims.
use clinks.Prelude.{◌≡◌, inl, inr, Bool, true, false, Bool-cases, arith}
use clinks.Text.{is_empty}
use clinks.Errors.{Err, is_lease_lost, Result, ok, err, Result-cases}
use clinks.Domain.{Invitation, OutboxJob}
use clinks.Worker.{InvitationWorker, deliver, settle, retry, process, run_once}

-- The answer of the outbox to the one call that settles a job: it was done, or the lease was lost.
pub data Settled {W : Type 0} (call : Result (Unit {0}) × W) (w' : W) : Type 0 where
  done : call ≡ (ok tt, w') → Settled call w'
  lost : (e : Err) → is_lease_lost e ≡ true → call ≡ (err e, w') → Settled call w'

-- What happens to a job: its mail went out and then it was completed, or the mail failed and then it
-- was given back with the cause.
pub data Handled {W : Type 0} (worker : InvitationWorker W) (job : OutboxJob)
    (invitation : Invitation) (w w' : W) : Type 0 where
  sent :
      (after : W)
      → deliver worker invitation w ≡ (ok tt, after)
      → Settled (worker.outbox.complete job after) w'
      → Handled worker job invitation w w'
  given_back :
      (cause : Err) (after : W)
      → deliver worker invitation w ≡ (err cause, after)
      → Settled (worker.outbox.retry job cause after) w'
      → Handled worker job invitation w w'

-- What one run did.
pub data Ran {W : Type 0} (worker : InvitationWorker W) (w w' : W) : Bool → Type 0 where
  idle :
      (job : OutboxJob) (invitation : Invitation)
      → worker.outbox.claim_invitation_email w ≡ (ok (job, invitation), w')
      → is_empty job.id ≡ true
      → Ran worker w w' false
  worked :
      (job : OutboxJob) (invitation : Invitation) (claimed : W)
      → worker.outbox.claim_invitation_email w ≡ (ok (job, invitation), claimed)
      → is_empty job.id ≡ false
      → Handled worker job invitation claimed w'
      → Ran worker w w' true

module _ {W : Type 0} (worker : InvitationWorker W) where
  complete-Settled :
      (job : OutboxJob) (w w' : W) (b : Bool)
      → settle worker job (ok tt) w ≡ (ok b, w')
      → (b ≡ true) × Settled (worker.outbox.complete job w) w'
  unfolding settle
  complete-Settled job w w' b h = elim (Result-cases (worker.outbox.complete job w).0) [
    | inl (u, e) ↦ (ground arith, done (ground arith))
    | inr (x, e) ↦ elim (Bool-cases (is_lease_lost x)) [
      | inl l ↦ (ground arith, lost x l (ground arith))
      | inr l ↦ absurd (ground arith)
    ]
  ]

  retry-Settled :
      (job : OutboxJob) (cause : Err) (w w' : W) (b : Bool)
      → settle worker job (err cause) w ≡ (ok b, w')
      → (b ≡ true) × Settled (worker.outbox.retry job cause w) w'
  unfolding settle retry
  retry-Settled job cause w w' b h = elim (Result-cases (worker.outbox.retry job cause w).0) [
    | inl (u, e) ↦ (ground arith, done (ground arith))
    | inr (x, e) ↦ elim (Bool-cases (is_lease_lost x)) [
      | inl l ↦ (ground arith, lost x l (ground arith))
      | inr l ↦ absurd (ground arith)
    ]
  ]

  process-Handled :
      (job : OutboxJob) (invitation : Invitation) (w w' : W) (b : Bool)
      → process worker job invitation w ≡ (ok b, w')
      → (b ≡ true) × Handled worker job invitation w w'
  unfolding process
  process-Handled job invitation w w' b h =
      let (r, after) = deliver worker invitation w in
      elim (Result-cases (deliver worker invitation w).0) [
        | inl (u, e) ↦
            let (t, s) = complete-Settled job after w' b (ground arith) in
            (t, sent after (ground arith) s)
        | inr (cause, e) ↦
            let (t, s) = retry-Settled job cause after w' b (ground arith) in
            (t, given_back cause after (ground arith) s)
      ]

  -- A run that returns no error found no job, or it handled the one that it claimed: the job is
  -- completed only after its mail was accepted, it is given back with the cause where the token, the
  -- message or the mail failed, and one of the two happens exactly once.
  pub run_once-Ran : (w w' : W) (b : Bool) → run_once worker w ≡ (ok b, w') → Ran worker w w' b
  unfolding run_once
  run_once-Ran w w' b h =
      let (r, claimed) = worker.outbox.claim_invitation_email w in
      elim (Result-cases (worker.outbox.claim_invitation_email w).0) [
        | inr (x, e) ↦ absurd (ground arith)
        | inl ((job, invitation), e) ↦ elim (Bool-cases (is_empty job.id)) [
          | inl t ↦ let f : b ≡ false = ground arith in rw f (idle job invitation (ground arith) t)
          | inr f ↦
              let (t, handled) = process-Handled job invitation claimed w' b (ground arith) in
              rw t (worked job invitation claimed (ground arith) f handled)
        ]
      ]
