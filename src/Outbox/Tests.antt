-- ===== src/Outbox/Tests.antt =====
-- A table of one job, claimed twice.
use clinks.Prelude.{ℕ, ◌*◌, ◌≢◌, true, ◌+◌, ◌≤◌, ◌≡◌, refl, List, [], ◌∷◌, none, some, arith, All}
use clinks.Text.{Str, str, same, ranges}
use clinks.Errors.{plain, ok, err, domain, lease_lost}
use clinks.Validation.{valid_uuid}
use clinks.Domain.{Invitation, OutboxJob, delivery_queued}
use clinks.Outbox.{
  Outbox, OutboxRow, pending, completed, claim_invitation_email, claim_tx, take_candidate,
  candidate, due, before, minute, hour, claimed_row,
}
use clinks.Outbox.Settle.{complete, retry, retry_delay}
use clinks.Outbox.Claims.{Taken, claim-Taken}
use clinks.Outbox.Holders.{superseded_lease, claim_complete}
use clinks.Outbox.Life.{
  Request, claims, completes, waits, run_requests, LeaseSound, run_requests-LeaseSound,
}
use clinks.Outbox.Delay.{retry_delay_bounds}

abbrev job_id : Str
job_id = str "00000000-0000-0000-0000-00000000000a"

abbrev first_lease : Str
first_lease = str "00000000-0000-0000-0000-0000000000b1"

abbrev second_lease : Str
second_lease = str "00000000-0000-0000-0000-0000000000b2"

abbrev invitation : Invitation
invitation = record {
  id = str "i1";
  tenant_id = str "t1";
  email = str "ada@x.ch";
  role_id = str "r1";
  role = none;
  token_hash = str "h";
  expires_at = 900;
  used_at = none;
  revoked_at = none;
  created_by = str "u2";
  acceptance = [];
  delivery_status = delivery_queued;
  locale = str "de";
  created_at = 0;
}

abbrev row : OutboxRow
row = record {
  id = job_id;
  tenant_id = str "t1";
  invitation_id = str "i1";
  status = pending;
  attempts = 0;
  available_at = 5;
  locked_at = none;
  lease_token = none;
  completed_at = none;
  dead_lettered_at = none;
  last_error = none;
  created_at = 5;
  updated_at = 5;
}

abbrev queued : Outbox
queued = record { jobs = row ∷ []; invitations = invitation ∷ []; audits = []; now = 7 }

abbrev held_at_7 : OutboxRow
held_at_7 = claimed_row 7 first_lease row

-- Eleven minutes later.
abbrev stale : Outbox
stale = record queued { jobs = held_at_7 ∷ []; now = 7 + 11 * minute }

abbrev taken_over : Outbox
taken_over = record stale { jobs = claimed_row (7 + 11 * minute) second_lease held_at_7 ∷ [] }

abbrev job_with : Str → ℕ → OutboxJob
job_with lease attempts = record {
  id = job_id;
  tenant_id = str "t1";
  invitation_id = str "i1";
  attempts = attempts;
  lease_token = lease;
}

take_over :
    claim_invitation_email (ok second_lease) stale
    ≡ (ok (job_with second_lease 2, invitation), taken_over)
unfolding claim_invitation_email claim_tx take_candidate candidate due before same
take_over = refl

leases_differ : first_lease ≢ second_lease
leases_differ e = ground arith

job_id_valid : valid_uuid job_id ≡ true
unfolding valid_uuid same ranges
job_id_valid = refl

first_lease_valid : valid_uuid first_lease ≡ true
unfolding valid_uuid same ranges
first_lease_valid = refl

second_lease_valid : valid_uuid second_lease ≡ true
unfolding valid_uuid same ranges
second_lease_valid = refl

claim-Taken_example : Taken second_lease stale (job_with second_lease 2) invitation taken_over
claim-Taken_example =
    claim-Taken second_lease stale taken_over (job_with second_lease 2) invitation take_over refl

superseded_lease_example :
    (complete (job_with first_lease 1) taken_over ≡ (err (domain lease_lost), taken_over))
    × (retry (job_with first_lease 1) (some (plain (str "smtp"))) 9 (ok (str "a1")) taken_over
        ≡ (err (domain lease_lost), taken_over))
superseded_lease_example =
    superseded_lease second_lease stale taken_over (job_with second_lease 2)
      (job_with first_lease 1) invitation (plain (str "smtp")) 9 (ok (str "a1")) take_over refl refl
      leases_differ job_id_valid first_lease_valid

claim_complete_example :
    ((complete (job_with second_lease 2) taken_over).0 ≡ ok tt)
    × All
        (λ r. r.id ≡ job_id → r.status ≡ completed)
        (complete (job_with second_lease 2) taken_over).1.jobs
claim_complete_example =
    claim_complete second_lease stale taken_over (job_with second_lease 2) invitation take_over refl
      job_id_valid second_lease_valid

abbrev requests : List Request
requests =
    claims (ok first_lease)
    ∷ waits (11 * minute)
    ∷ claims (ok second_lease)
    ∷ completes (job_with second_lease 2)
    ∷ []

run_requests-LeaseSound_example : All LeaseSound (run_requests requests queued).jobs
run_requests-LeaseSound_example =
    run_requests-LeaseSound requests queued (record { lease = refl; lock = refl }, tt)

retry_delay_bounds_example :
    (minute ≤ retry_delay 3) × (retry_delay 3 ≤ hour) × (retry_delay 3 ≤ retry_delay (3 + 1))
retry_delay_bounds_example = retry_delay_bounds 3
