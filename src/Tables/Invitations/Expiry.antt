-- ===== src/Tables/Invitations/Expiry.antt =====
-- server/postgres/outbox.go: `AnonymizeExpiredInvitations`. A null hash is the empty text, as everywhere in
-- the model; it stands for `anonymized_at` too, since an invitation is created with a hash.
use clinks.Prelude.{ℕ, Bool, ◌&&◌, ◌||◌, not, [], Option, none, some, ltb}
use clinks.Text.{is_empty}
use clinks.Errors.{ok}
use clinks.Exec.{Act}
use clinks.Sql.{count_where, update_where, transaction}
use clinks.Domain.{Invitation}
use clinks.Tables.{Tables}

-- `used_at < $1`.
abbrev used_before : ℕ → Option ℕ → Bool
used_before before none = Bool.false
used_before before (some used) = ltb used before

abbrev pub expired : ℕ → Invitation → Bool
expired before row =
    not (is_empty row.token_hash) && (ltb row.expires_at before || used_before before row.used_at)

abbrev pub anonymized : Invitation → Invitation
anonymized row = record row { email = []; token_hash = [] }

unfoldable pub anonymize_expired_invitations : ℕ → Act Tables ℕ
anonymize_expired_invitations before = transaction (λ db. (
  ok (count_where (expired before) db.invitations),
  record db { invitations = update_where (expired before) anonymized db.invitations },
))
