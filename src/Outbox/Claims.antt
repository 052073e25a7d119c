-- ===== src/Outbox/Claims.antt =====
-- What a claim of server/postgres/outbox.go takes, in terms of the columns.
use mathlib.Core.List.{Mem}
use clinks.Prelude.{
  leb, ◌&&◌, ℕ, ◌+◌, ◌*◌, ◌≤◌, ◌<◌, ◌≡◌, ◌⊎◌, refl, inl, inr, true, false, List, [], ◌∷◌, some, All,
  All-map, Option-cases, Bool-cases, arith, ap,
}
use clinks.Text.{Str, same, same→eq, is_empty}
use clinks.Errors.{ok}
use clinks.Domain.{Invitation, OutboxJob}
use clinks.Sql.{update_where, first_where}
use clinks.Outbox.{
  JobStatus, pending, processing, completed, dead_letter, is_pending, is_processing, scanned,
  Outbox, OutboxRow, due, claimed_row, claim_invitation_email,
}
use clinks.Outbox.Leases.{claim-Took}

-- A row that a worker may take: it is pending and its time has come, or its worker has held it for more
-- than ten minutes.
pub data Free (now : ℕ) (row : OutboxRow) : Type 0 where
  waits : row.status ≡ pending → row.available_at ≤ now → Free now row
  abandoned :
      (locked : ℕ)
      → row.status ≡ processing
      → row.locked_at ≡ some locked
      → locked + 10 * 60 * 1000000000 < now
      → Free now row

pending-eq : (s : JobStatus) → is_pending s ≡ true → s ≡ pending
pending-eq pending h = refl
pending-eq processing h = absurd (ground arith)
pending-eq completed h = absurd (ground arith)
pending-eq dead_letter h = absurd (ground arith)

processing-eq : (s : JobStatus) → is_processing s ≡ true → s ≡ processing
processing-eq pending h = absurd (ground arith)
processing-eq processing h = refl
processing-eq completed h = absurd (ground arith)
processing-eq dead_letter h = absurd (ground arith)

due-Free : (now : ℕ) (row : OutboxRow) → due now row ≡ true → Free now row
unfolding due
due-Free now row h = elim (Bool-cases (is_pending row.status && leb row.available_at now)) [
  | inl w ↦ waits (pending-eq row.status (ground arith)) (ground arith)
  | inr n ↦ elim (Option-cases row.locked_at) [
    | inl l ↦ absurd (ground arith)
    | inr (locked, l) ↦ abandoned locked (processing-eq row.status (ground arith)) l (ground arith)
  ]
]

Free-due : (now : ℕ) (row : OutboxRow) → Free now row → due now row ≡ true
unfolding due
Free-due now row (waits p t) = rw p (ground arith)
Free-due now row (abandoned locked p l t) = rw (p, l) (ground arith)

-- A row as a worker holds it: only the columns of the lease and the count of attempts have changed.
pub record Held (lease : Str) (now : ℕ) (row held : OutboxRow) : Type 0 where
  pub id : held.id ≡ row.id
  pub tenant_id : held.tenant_id ≡ row.tenant_id
  pub invitation_id : held.invitation_id ≡ row.invitation_id
  pub status : held.status ≡ processing
  pub attempts : held.attempts ≡ row.attempts + 1
  pub locked_at : held.locked_at ≡ some now
  pub lease_token : held.lease_token ≡ some lease
  pub available_at : held.available_at ≡ row.available_at
  pub completed_at : held.completed_at ≡ row.completed_at
  pub dead_lettered_at : held.dead_lettered_at ≡ row.dead_lettered_at
  pub last_error : held.last_error ≡ row.last_error
  pub created_at : held.created_at ≡ row.created_at
  pub updated_at : held.updated_at ≡ now

-- Row by row: those with the identifier are held under the lease, the others are as they were.
abbrev pub OnlyHeld : Str → Str → ℕ → List OutboxRow → List OutboxRow → Type 0
OnlyHeld id lease now [] [] = Unit
OnlyHeld id lease now [] (y ∷ ys) = ⊥
OnlyHeld id lease now (x ∷ xs) [] = ⊥
OnlyHeld id lease now (x ∷ xs) (y ∷ ys) =
    (((x.id ≡ id) × Held lease now x y) ⊎ ((same x.id id ≡ false) × (y ≡ x)))
    × OnlyHeld id lease now xs ys

claimed-OnlyHeld :
    (id lease : Str) (now : ℕ) (rows : List OutboxRow)
    → OnlyHeld id lease now rows (update_where (λ r. same r.id id) (claimed_row now lease) rows)
claimed-OnlyHeld id lease now [] = tt
claimed-OnlyHeld id lease now (x ∷ xs) = elim (Bool-cases (same x.id id)) [
  | inl e ↦ rw e (
    inl (
      same→eq x.id id e,
      record {
        id = refl;
        tenant_id = refl;
        invitation_id = refl;
        status = refl;
        attempts = refl;
        locked_at = refl;
        lease_token = refl;
        available_at = refl;
        completed_at = refl;
        dead_lettered_at = refl;
        last_error = refl;
        created_at = refl;
        updated_at = refl;
      },
    ),
    claimed-OnlyHeld id lease now xs,
  )
  | inr n ↦ rw n (inr (refl, refl), claimed-OnlyHeld id lease now xs)
]

-- No row that may be taken was available before it.
abbrev pub NotAfter : ℕ → OutboxRow → OutboxRow → Type 0
NotAfter now row other = Free now other → row.available_at ≤ other.available_at

-- What a claim that hands out a job has taken, and what it has left.
pub record Taken (lease : Str) (db : Outbox) (job : OutboxJob) (invitation : Invitation)
    (db' : Outbox) : Type 0 where
  pub row : OutboxRow
  pub listed : Mem row db.jobs
  pub free : Free db.now row
  pub first : All (NotAfter db.now row) db.jobs
  pub id : job.id ≡ row.id
  pub tenant_id : job.tenant_id ≡ row.tenant_id
  pub invitation_id : job.invitation_id ≡ row.invitation_id
  pub attempts : job.attempts ≡ row.attempts + 1
  pub lease_token : job.lease_token ≡ lease
  pub stored : Invitation
  pub stored_is : first_where (λ i. same i.id row.invitation_id) db.invitations ≡ some stored
  pub invitation_is : invitation ≡ scanned stored
  pub held : OnlyHeld row.id lease db.now db.jobs db'.jobs
  pub invitations_kept : db'.invitations ≡ db.invitations
  pub audits_kept : db'.audits ≡ db.audits

-- A claim that hands out a job took a row of the table that is pending and whose time has come, or that
-- has been held for more than ten minutes, such that no other such row was available earlier; the job
-- is that row with one more attempt, under the new lease, and comes with its invitation. Afterwards
-- the rows of that identifier are processing under the new lease, locked now and with one more attempt,
-- and nothing else has changed.
pub claim-Taken :
    (lease : Str) (db db' : Outbox) (job : OutboxJob) (invitation : Invitation)
    → claim_invitation_email (ok lease) db ≡ (ok (job, invitation), db')
    → is_empty job.id ≡ false
    → Taken lease db job invitation db'
claim-Taken lease db db' job invitation h e =
    let took = claim-Took lease db db' job invitation h e in
    record {
      row = took.row;
      listed = took.listed;
      free = due-Free db.now took.row took.is_due;
      first = All-map (λ other f free. f (Free-due db.now other free)) db.jobs took.none_earlier;
      id = ap (λ (j : OutboxJob). j.id) took.job_is;
      tenant_id = ap (λ (j : OutboxJob). j.tenant_id) took.job_is;
      invitation_id = ap (λ (j : OutboxJob). j.invitation_id) took.job_is;
      attempts = ap (λ (j : OutboxJob). j.attempts) took.job_is;
      lease_token = ap (λ (j : OutboxJob). j.lease_token) took.job_is;
      stored = took.stored;
      stored_is = took.stored_is;
      invitation_is = took.invitation_is;
      held = rw took.after (claimed-OnlyHeld took.row.id lease db.now db.jobs);
      invitations_kept = ap (λ (o : Outbox). o.invitations) took.after;
      audits_kept = ap (λ (o : Outbox). o.audits) took.after;
    }
