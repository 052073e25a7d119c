-- ===== src/Outbox/Holders.antt =====
-- Holders of leases of server/postgres/outbox.go: the holder of the current lease can complete the
-- job, and one whose lease was taken over can no longer do anything to it.
use mathlib.Core.Logic.Or
use mathlib.Core.Bool.{Bool-set}
use mathlib.Core.List.{Mem, mem-cons, mem-map_of_mem, not-mem-nil}
use clinks.Prelude.{
  ap, ◌≢◌, All, Option-cases, Bool, List, if◌then◌else◌, ℕ, ◌+◌, ◌≡◌, refl, inl, inr, true, false,
  List, [], ◌∷◌, none, some, Bool-cases, arith, sym,
}
use clinks.Text.{same→eq, Str, same, same_refl, is_empty}
use clinks.Errors.{Err, error_text, domain, lease_lost, Result, ok, err}
use clinks.Domain.{Invitation, OutboxJob}
use clinks.Validation.{valid_uuid}
use clinks.Sql.{update_where, first_where}
use clinks.Outbox.{Outbox, OutboxRow, claimed_row, completed, claim_invitation_email}
use clinks.Outbox.Settle.{
  settle, held_by, complete, complete_tx, retry, retry_tx, dead_letter_tx, retry_delay,
  completed_row, dead_row, retried_row,
}
use clinks.Outbox.Leases.{claim-Took}

none_held :
    (old : OutboxJob) (lease : Str) (now : ℕ) (rows : List OutboxRow)
    → same lease old.lease_token ≡ false
    → first_where (held_by old) (update_where (λ r. same r.id old.id) (claimed_row now lease) rows)
      ≡ none
unfolding held_by
none_held old lease now [] l = refl
none_held old lease now (x ∷ xs) l = elim (Bool-cases (same x.id old.id)) [
  | inl t ↦ ground (arith, none_held old lease now xs l)
  | inr f ↦ ground (arith, none_held old lease now xs l)
]

pub settle_lost :
    (job : OutboxJob) (change : OutboxRow → OutboxRow) (db : Outbox)
    → first_where (held_by job) db.jobs ≡ none
    → settle job change db ≡ (err (domain lease_lost), db)
unfolding settle
settle_lost job change db h = ground arith

complete_lost :
    (job : OutboxJob) (db : Outbox)
    → first_where (held_by job) db.jobs ≡ none
    → valid_uuid job.id ≡ true
    → valid_uuid job.lease_token ≡ true
    → complete job db ≡ (err (domain lease_lost), db)
unfolding complete complete_tx
complete_lost job db h v v' = ground (arith, settle_lost job (completed_row db.now) db h)

retry_lost :
    (job : OutboxJob) (cause : Err) (clock : ℕ) (event_id : Result Str) (db : Outbox)
    → first_where (held_by job) db.jobs ≡ none
    → valid_uuid job.id ≡ true
    → valid_uuid job.lease_token ≡ true
    → retry job (some cause) clock event_id db ≡ (err (domain lease_lost), db)
unfolding retry retry_tx dead_letter_tx
retry_lost job cause clock event_id db h v v' =
    let dead = settle_lost job (dead_row db.now (error_text cause)) db h in
    let again =
      settle_lost job (retried_row db.now (clock + retry_delay job.attempts) (error_text cause)) db
        h in
    ground (arith, dead, again)

-- Once another claim has taken a job, the holder of an earlier lease of it, another token with
-- identifiers that are UUIDs, can neither complete the job nor have it tried again: both calls are
-- refused as a lost lease and the tables stay as they are.
pub superseded_lease :
    (lease : Str) (db db' : Outbox) (job old : OutboxJob) (invitation : Invitation) (cause : Err)
    (clock : ℕ) (event_id : Result Str)
    → claim_invitation_email (ok lease) db ≡ (ok (job, invitation), db')
    → is_empty job.id ≡ false
    → old.id ≡ job.id
    → old.lease_token ≢ lease
    → valid_uuid old.id ≡ true
    → valid_uuid old.lease_token ≡ true
    → (complete old db' ≡ (err (domain lease_lost), db'))
      × (retry old (some cause) clock event_id db' ≡ (err (domain lease_lost), db'))
superseded_lease lease db db' job old invitation cause clock event_id h e same_job newer v v' =
    let taken = claim-Took lease db db' job invitation h e in
    let same_id : old.id ≡ taken.row.id = cc (taken.job_is, same_job) in
    let differs : same lease old.lease_token ≡ false =
      ground (arith, same→eq lease old.lease_token) in
    let held = none_held old lease db.now db.jobs differs in
    let lost : first_where (held_by old) db'.jobs ≡ none = rw taken.after (rw (sym same_id) held) in
    (complete_lost old db' lost v v', retry_lost old cause clock event_id db' lost v v')

none_where :
    (p : OutboxRow → Bool) (xs : List OutboxRow) (x : OutboxRow)
    → first_where p xs ≡ none
    → Mem x xs
    → p x ≡ false
none_where p [] x h m = absurd (not-mem-nil m)
none_where p (y ∷ ys) x h m = elim (Bool-cases (p y)) [
  | inl t ↦ absurd (ground arith)
  | inr f ↦
      Or.elim (Bool-set _ _) (mem-cons.0 m) (λ e. rw e f)
        (λ m'. none_where p ys x (ground arith) m')
]

-- The rows of a job after a claim of it and the completion by its holder.
All-completed :
    (job : OutboxJob) (now now' : ℕ) (rows : List OutboxRow)
    → All
        (λ r. r.id ≡ job.id → r.status ≡ completed)
        (update_where
          (held_by job)
          (completed_row now')
          (update_where (λ r. same r.id job.id) (claimed_row now job.lease_token) rows))
unfolding held_by
All-completed job now now' [] = tt
All-completed job now now' (x ∷ xs) = elim (Bool-cases (same x.id job.id)) [
  | inl t ↦ ((λ e. ground (arith, same_refl job.lease_token)), All-completed job now now' xs)
  | inr f ↦ ((λ e. ground (arith, same_refl job.id)), All-completed job now now' xs)
]

pub settle_held :
    (job : OutboxJob) (change : OutboxRow → OutboxRow) (db : Outbox) (row : OutboxRow)
    → first_where (held_by job) db.jobs ≡ some row
    → settle job change db
      ≡ (ok row, record db { jobs = update_where (held_by job) change db.jobs })
unfolding settle
settle_held job change db row h = ground arith

complete_held :
    (job : OutboxJob) (db : Outbox) (row : OutboxRow)
    → first_where (held_by job) db.jobs ≡ some row
    → valid_uuid job.id ≡ true
    → valid_uuid job.lease_token ≡ true
    → ((complete job db).0 ≡ ok tt)
      × ((complete job db).1.jobs ≡ update_where (held_by job) (completed_row db.now) db.jobs)
unfolding complete complete_tx
complete_held job db row h v v' = ground (arith, settle_held job (completed_row db.now) db row h)

claimed_held :
    (job : OutboxJob) (now : ℕ) (row : OutboxRow) (rows : List OutboxRow)
    → Mem row rows
    → row.id ≡ job.id
    → (r : OutboxRow) × (first_where
          (held_by job)
          (update_where (λ r. same r.id job.id) (claimed_row now job.lease_token) rows)
        ≡ some r)
unfolding held_by
claimed_held job now row rows m e =
    let rows' = update_where (λ r. same r.id job.id) (claimed_row now job.lease_token) rows in
    elim (Option-cases (first_where (held_by job) rows')) [
      | inr found ↦ found
      | inl n ↦
          let claim : OutboxRow → OutboxRow =
            λ r. if same r.id job.id then claimed_row now job.lease_token r else r in
          let lost = none_where (held_by job) rows' (claim row) n (mem-map_of_mem claim m) in
          absurd (ground (arith, lost, same_refl job.id, same_refl job.lease_token))
    ]

-- Whoever claims a job, under identifiers that are UUIDs, can complete it: the call succeeds, and every
-- row of that job is completed after it.
pub claim_complete :
    (lease : Str) (db db' : Outbox) (job : OutboxJob) (invitation : Invitation)
    → claim_invitation_email (ok lease) db ≡ (ok (job, invitation), db')
    → is_empty job.id ≡ false
    → valid_uuid job.id ≡ true
    → valid_uuid lease ≡ true
    → ((complete job db').0 ≡ ok tt)
      × All (λ r. r.id ≡ job.id → r.status ≡ completed) (complete job db').1.jobs
claim_complete lease db db' job invitation h e v v' =
    let taken = claim-Took lease db db' job invitation h e in
    let same_id : job.id ≡ taken.row.id = ap (λ j. j.id) taken.job_is in
    let same_lease : job.lease_token ≡ lease = ap (λ j. j.lease_token) taken.job_is in
    let jobs : db'.jobs
        ≡ update_where (λ r. same r.id job.id) (claimed_row db.now job.lease_token) db.jobs =
      rw (same_id, same_lease) (ap (λ d. d.jobs) taken.after) in
    let (r, held) = claimed_held job db.now taken.row db.jobs taken.listed (sym same_id) in
    let (done, after) = complete_held job db' r (rw jobs held) v (rw same_lease v') in
    (done, rw after (rw jobs (All-completed job db.now db'.now db.jobs)))
