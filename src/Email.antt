-- ===== src/Email.antt =====
-- email.go.
use clinks.Prelude.{Bool, Option, none, some, if◌then◌else◌, false}
use clinks.Text.{Str, same, is_empty, trim_space, to_lower}
use clinks.Errors.{Result, ok, err, domain, validation, is_ok}
use clinks.Runtime.{Runtime}

-- The address that the parser found is the whole text.
abbrev is_address : Option Str → Str → Bool
is_address none s = false
is_address (some a) s = same a s

unfoldable pub parse_email : Runtime → Str → Result Str
parse_email rt value =
    let normalized = to_lower rt.tables (trim_space value) in
    if is_empty normalized
    then err (domain validation)
    else if is_address (rt.parse_address normalized) normalized
    then ok normalized
    else err (domain validation)

-- `Email.Validate() == nil`.
unfoldable pub email_is_valid : Runtime → Str → Bool
unfolding parse_email
email_is_valid rt email = is_ok (parse_email rt email)
