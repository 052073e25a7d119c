-- ===== src/Worker/Tests.antt =====
-- A worker with one job and a mail server that takes every mail; the state counts the calls.
use clinks.Prelude.{ℕ, ◌+◌, ◌≡◌, refl, true, [], none, pos}
use clinks.Text.{str}
use clinks.Errors.{ok}
use clinks.Domain.{Invitation, OutboxJob, delivery_queued}
use clinks.Localization.{locale_is_valid}
use clinks.Worker.{InvitationWorker, run_once, invitation_message, localized_message, replace_from}
use clinks.Worker.Handled.{Ran, run_once-Ran}

abbrev job : OutboxJob
job = record {
  id = str "j1";
  tenant_id = str "t1";
  invitation_id = str "i1";
  attempts = 1;
  lease_token = str "l1";
}

abbrev invitation : Invitation
invitation = record {
  id = str "i1";
  tenant_id = str "t1";
  email = str "ada@x.ch";
  role_id = str "r1";
  role = none;
  token_hash = str "h";
  expires_at = 900;
  used_at = none;
  revoked_at = none;
  created_by = str "u2";
  acceptance = [];
  delivery_status = delivery_queued;
  locale = str "de";
  created_at = 0;
}

abbrev counting : InvitationWorker ℕ
counting = record {
  outbox = record {
    claim_invitation_email = λ w. (ok (job, invitation), w + 1);
    complete = λ j w. (ok tt, w + 1);
    retry = λ j e w. (ok tt, w + 1);
    anonymize_expired_invitations = λ c w. (ok (pos 0), w + 1);
  };
  mailer = record { send = λ m w. (ok tt, w + 1) };
  token_of = λ i w. (ok (str "token"), w);
  link_url = λ t. t;
  messages = record {
    default_locale = λ w. (ok (str "en"), w);
    message = λ l k w. (ok (str "open {url}"), w);
  };
  now = λ w. w;
}

one_run : run_once counting 0 ≡ (ok true, 3)
unfolding run_once invitation_message localized_message locale_is_valid
one_run = refl

replaced : replace_from (str "{url}") (str "x") 0 (str "open {url}, {url") ≡ str "open x, {url"
unfolding replace_from
replaced = refl

run_once-Ran_example : Ran counting 0 3 true
run_once-Ran_example = run_once-Ran counting 0 3 true one_run
