-- ===== src/Outbox/Leases.antt =====
-- What a claim of server/postgres/outbox.go takes.
use mathlib.Core.Logic.Or
use mathlib.Core.List.{Mem, mem-cons}
use clinks.Prelude.{
  All-map, if_either, ℕ, ◌≤◌, ◌≡◌, inl, inr, true, false, List, [], ◌∷◌, none, some, All,
  Option-cases, Bool-cases, arith, subst,
}
use clinks.Text.{Str, same, is_empty}
use clinks.Errors.{ok}
use clinks.Domain.{Invitation, OutboxJob}
use clinks.Sql.{update_where, first_where}
use clinks.Outbox.{
  scanned, Outbox, OutboxRow, candidate, due, claimed_row, job_of, take_candidate, claim_tx,
  claim_invitation_email, before, sooner,
}

before→le : (a b : OutboxRow) → before a b ≡ true → a.available_at ≤ b.available_at
unfolding before
before→le a b h = ground arith

not-before→le : (a b : OutboxRow) → before a b ≡ false → b.available_at ≤ a.available_at
unfolding before
not-before→le a b h = ground arith

none-due :
    (now : ℕ) (rows : List OutboxRow)
    → candidate now rows ≡ none
    → All (λ other. due now other ≡ false) rows
unfolding candidate
none-due now [] h = tt
none-due now (x ∷ xs) h = elim (Bool-cases (due now x)) [
  | inl d ↦ absurd (ground arith)
  | inr n ↦ (n, none-due now xs (ground arith))
]

abbrev pub NoEarlier : ℕ → OutboxRow → OutboxRow → Type 0
NoEarlier now row other = due now other ≡ true → row.available_at ≤ other.available_at

sooner-le :
    (row later : OutboxRow)
    → ((sooner row (some later)).available_at ≤ row.available_at)
      × ((sooner row (some later)).available_at ≤ later.available_at)
sooner-le row later = elim (Bool-cases (before later row)) [
  | inl t ↦ ground (arith, before→le later row t)
  | inr f ↦ ground (arith, not-before→le later row f)
]

-- The row that is chosen is due, and none that is due was available earlier.
candidate-first :
    (now : ℕ) (rows : List OutboxRow) (row : OutboxRow)
    → candidate now rows ≡ some row
    → (due now row ≡ true) × All (NoEarlier now row) rows
unfolding candidate
candidate-first now [] row h = absurd (ground arith)
candidate-first now (x ∷ xs) row h = elim (Bool-cases (due now x)) [
  | inr f ↦
      let (d', a) = candidate-first now xs row (ground arith) in
      (d', ((λ d. absurd (ground arith)), a))
  | inl d ↦ elim (Option-cases (candidate now xs)) [
    | inl n ↦
        let e : x ≡ row = ground arith in
        subst (λ r. (due now r ≡ true) × All (NoEarlier now r) (x ∷ xs)) e
          (
            d,
            ((λ d'. omega arith), All-map (λ o f t. absurd (ground arith)) xs (none-due now xs n)),
          )
    | inr (later, c) ↦
        let (d', a) = candidate-first now xs later c in
        let e : sooner x (some later) ≡ row = ground arith in
        let (le, le') = sooner-le x later in
        subst (λ r. (due now r ≡ true) × All (NoEarlier now r) (x ∷ xs)) e
          (
            if_either (λ r. due now r ≡ true) (before later x) d' d,
            ((λ t. le), All-map (λ o f t. omega (arith, le', f t)) xs a),
          )
  ]
]

candidate_mem :
    (now : ℕ) (rows : List OutboxRow) (row : OutboxRow)
    → candidate now rows ≡ some row
    → Mem row rows
unfolding candidate
candidate_mem now [] row h = absurd (ground arith)
candidate_mem now (x ∷ xs) row h = elim (Bool-cases (due now x)) [
  | inr f ↦ mem-cons.1 (Or.inr (candidate_mem now xs row (ground arith)))
  | inl d ↦ elim (Option-cases (candidate now xs)) [
    | inl n ↦ mem-cons.1 (Or.inl (ground arith))
    | inr (later, c) ↦ elim (Bool-cases (before later x)) [
      | inl b ↦ mem-cons.1 (Or.inr (candidate_mem now xs row (ground arith)))
      | inr b ↦ mem-cons.1 (Or.inl (ground arith))
    ]
  ]
]

-- What a claim that found a job did, in the words of the code.
pub record Took (lease : Str) (db : Outbox) (job : OutboxJob) (invitation : Invitation)
    (db' : Outbox) : Type 0 where
  pub row : OutboxRow
  pub listed : Mem row db.jobs
  pub is_due : due db.now row ≡ true
  pub none_earlier : All (NoEarlier db.now row) db.jobs
  pub job_is : job ≡ job_of row lease
  pub stored : Invitation
  pub stored_is : first_where (λ i. same i.id row.invitation_id) db.invitations ≡ some stored
  pub invitation_is : invitation ≡ scanned stored
  pub after :
      db'
      ≡ record db { jobs = update_where (λ r. same r.id row.id) (claimed_row db.now lease) db.jobs }

-- The claim in the words of the code.
pub claim-Took :
    (lease : Str) (db db' : Outbox) (job : OutboxJob) (invitation : Invitation)
    → claim_invitation_email (ok lease) db ≡ (ok (job, invitation), db')
    → is_empty job.id ≡ false
    → Took lease db job invitation db'
unfolding claim_invitation_email claim_tx take_candidate same
claim-Took lease db db' job invitation h e = elim (Option-cases (candidate db.now db.jobs)) [
  | inl n ↦ absurd (ground arith)
  | inr (row, c) ↦
      let (is_due, first) = candidate-first db.now db.jobs row c in
      let listed = candidate_mem db.now db.jobs row c in
      elim (Option-cases (first_where (λ i. same i.id row.invitation_id) db.invitations)) [
        | inl n ↦ absurd (ground arith)
        | inr (i, f) ↦ record {
          row = row;
          listed = listed;
          is_due = is_due;
          none_earlier = first;
          job_is = ground arith;
          stored = i;
          stored_is = f;
          invitation_is = ground arith;
          after = ground arith;
        }
      ]
]
