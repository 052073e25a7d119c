-- ===== src/Runtime.antt =====
-- Standard-library functions that the source calls and whose tables or algorithms are parameters
-- here: the case tables of Unicode beyond ASCII, the address parser of net/mail, SHA-256 and the
-- raw URL-safe base64 encoding.
use clinks.Prelude.{Option}
use clinks.Text.{Str, CaseTables}

pub record Runtime : Type 0 where
  pub tables : CaseTables
  -- `mail.ParseAddress`, and the field `Address` of what it returns.
  pub parse_address : Str → Option Str
  pub sha256 : Str → Str
  pub base64 : Str → Str
