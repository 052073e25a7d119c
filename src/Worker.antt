-- ===== src/Worker.antt =====
-- server/worker.go: the worker that sends the emails of invitations. `W` is the state of the stores
-- and of the mail server. `Run`, the loop over two timers, is left out.
pub mod Handled
pub mod Tests
use clinks.Prelude.{
  ℕ, zero, suc, ◌-◌, Bool, true, false, ◌&&◌, not, List, [], ◌∷◌, ◌++◌, ◌==◌, if◌then◌else◌, length,
  ◌*◌, ℤ, pos, negsuc, leb,
}
use clinks.Text.{Str, str, is_empty, trim_space}
use clinks.Errors.{Err, wrap, join, is_lease_lost, Result, ok, err}
use clinks.Exec.{Act, pure, lift, attempt, ◌>>=◌, ◌>>◌}
use clinks.Localization.{locale_is_valid}
use clinks.Domain.{Invitation, OutboxJob, InvitationMessage}
use clinks.Stores.{OutboxStore, InvitationMailer, MessageCatalog}

pub record InvitationWorker (W : Type 0) : Type 0 where
  pub outbox : OutboxStore W
  pub mailer : InvitationMailer W
  pub token_of : Invitation → Act W Str
  pub link_url : Str → Str
  pub messages : MessageCatalog W
  pub now : W → ℕ

abbrev has_prefix : Str → Str → Bool
has_prefix [] s = true
has_prefix (p ∷ ps) [] = false
has_prefix (p ∷ ps) (c ∷ cs) = p == c && has_prefix ps cs

-- `strings.ReplaceAll` of a text that is not empty; `skip` bytes of the last match are left.
unfoldable pub replace_from : Str → Str → ℕ → Str → Str
replace_from old new skip [] = []
replace_from old new (suc skip) (c ∷ cs) = replace_from old new skip cs
replace_from old new zero (c ∷ cs) = elim (has_prefix old (c ∷ cs)) [
  | true ↦ new ++ replace_from old new (length old - 1) cs
  | false ↦ c ∷ replace_from old new 0 cs
]

abbrev pub replace_all : Str → Str → Str → Str
replace_all s old new = replace_from old new 0 s

-- `fmt.Errorf("…: %w", err)` on the error of a call.
abbrev wrap_error : {A : Type 0} → Str → Result A → Result A
wrap_error s (ok a) = ok a
wrap_error s (err e) = err (wrap s e)

abbrev pub wrapped : {W A : Type 0} → Str → Act W A → Act W A
wrapped s m w = let (r, w') = m w in (wrap_error s r, w')

abbrev dropped : {A : Type 0} → Result A → Result (Unit {0})
dropped (ok a) = ok tt
dropped (err e) = err e

-- An error that joins an earlier one.
abbrev join_error : {A : Type 0} → Err → Result A → Result A
join_error e (ok a) = ok a
join_error e (err e') = err (join e e')

abbrev joined : {W A : Type 0} → Err → Act W A → Act W A
joined e m w = let (r, w') = m w in (join_error e r, w')

-- What the worker makes of the answer to `Retry`: a lost lease is no error.
abbrev retry_answer : Err → Result (Unit {0}) → Result (Unit {0})
retry_answer cause (ok u) = ok tt
retry_answer cause (err e) =
    if is_lease_lost e
    then ok tt
    else err (join cause (wrap (str "schedule invitation job retry") e))

abbrev complete_answer : OutboxJob → Result (Unit {0}) → Result Bool
complete_answer job (ok u) = ok true
complete_answer job (err e) =
    if is_lease_lost e then ok true else err (wrap (str "complete invitation job " ++ job.id) e)

-- `cutoff`: 30 days of 24 hours back, in nanoseconds. All clocks are UTC.
abbrev retention : ℕ
retention = 30 * 24 * 60 * 60 * 1000000000

abbrev cutoff_of : ℕ → ℤ
cutoff_of now = if leb retention now then pos (now - retention) else negsuc (retention - now - 1)

module _ {W : Type 0} (worker : InvitationWorker W) where
  -- `localizedMessage` after the first call of `Message`.
  unfoldable default_message : Str → Result Str → Act W Str
  default_message key (ok message) = pure message
  default_message key (err e) = do
    locale ← joined e worker.messages.default_locale
    joined e (worker.messages.message locale key)

  unfoldable pub localized_message : Str → Str → Act W Str
  unfolding default_message
  localized_message locale key = do
    found ← attempt (worker.messages.message locale key)
    default_message key found

  unfoldable message_locale : Str → Act W Str
  message_locale locale =
      if locale_is_valid locale
      then pure locale
      else wrapped (str "load invitation default locale") worker.messages.default_locale

  unfoldable pub invitation_message : Invitation → Act W InvitationMessage
  unfolding message_locale localized_message replace_from
  invitation_message invitation = do
    locale ← message_locale invitation.locale
    subject ← localized_message locale (str "mail.invitation.subject")
    body ← localized_message locale (str "mail.invitation.body")
    pure (record {
      recipient = invitation.email;
      subject = subject;
      body = replace_all body (str "{url}") (trim_space invitation.acceptance);
    })

  unfoldable pub retry : OutboxJob → Err → Act W (Unit {0})
  retry job cause w = let (r, w') = worker.outbox.retry job cause w in (retry_answer cause r, w')

  -- The part of `RunOnce` whose errors lead to a retry: the token, the message, the mail.
  unfoldable pub deliver : Invitation → Act W (Unit {0})
  deliver invitation = do
    token ← wrapped (str "create invitation token") (worker.token_of invitation)
    message ← invitation_message (record invitation { acceptance = worker.link_url token })
    wrapped (str "send invitation email") (worker.mailer.send message)

  unfoldable pub settle : OutboxJob → Result (Unit {0}) → Act W Bool
  unfolding retry
  settle job (err cause) = do retry job cause; pure true
  settle job (ok u) =
      λ w. (let (r, w') = worker.outbox.complete job w in (complete_answer job r, w'))

  unfoldable pub process : OutboxJob → Invitation → Act W Bool
  unfolding deliver settle
  process job invitation = do sent ← attempt (deliver invitation); settle job sent

  -- `RunOnce`. The Boolean that the source returns beside an error is read by no caller.
  unfoldable pub run_once : Act W Bool
  unfolding process
  run_once = do
    claimed ← wrapped (str "claim invitation email") worker.outbox.claim_invitation_email
    if is_empty (claimed.0).id then pure false else process claimed.0 claimed.1

  unfoldable pub cleanup_expired : Act W (Unit {0})
  cleanup_expired w =
      let (r, w') = worker.outbox.anonymize_expired_invitations (cutoff_of (worker.now w)) w in
      (dropped (wrap_error (str "anonymize expired invitations") r), w')
