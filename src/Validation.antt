-- ===== src/Validation.antt =====
-- validation.go: passwords, names, searches, translations and the UUID texts of identifiers.
pub mod Uuid
pub mod Tests
use clinks.Prelude.{
  ℕ, Bool, true, false, ◌&&◌, ◌||◌, not, List, [], ◌∷◌, ltb, ◌==◌, if◌then◌else◌, length, get_or,
  ◌*◌,
}
use clinks.Text.{Str, valid_string, rune_count, ranges, trim_space, is_empty}
use clinks.Errors.{Result, ok, err, domain, validation}

abbrev pub minimum_password_runes : ℕ
minimum_password_runes = 12

abbrev pub maximum_password_bytes : ℕ
maximum_password_bytes = 72

abbrev pub maximum_search_runes : ℕ
maximum_search_runes = 200

abbrev pub maximum_translation_key_runes : ℕ
maximum_translation_key_runes = 255

abbrev pub maximum_translation_value_bytes : ℕ
maximum_translation_value_bytes = 16 * 1024

unfoldable pub validate_password : Str → Result (Unit {0})
validate_password password =
    if not (valid_string password)
      || ltb (rune_count password) minimum_password_runes
      || ltb maximum_password_bytes (length password)
    then err (domain validation)
    else ok tt

unfoldable pub normalize_name : Str → ℕ → ℕ → Result Str
normalize_name name minimum_runes maximum_runes =
    let name' = trim_space name in
    let runes = rune_count name' in
    if not (valid_string name') || ltb runes minimum_runes || ltb maximum_runes runes
    then err (domain validation)
    else ok name'

unfoldable pub normalize_tenant_name : Str → Result Str
unfolding normalize_name
normalize_tenant_name name = normalize_name name 2 120

unfoldable pub normalize_role_name : Str → Result Str
unfolding normalize_name
normalize_role_name name = normalize_name name 2 80

unfoldable pub normalize_search : Str → Result Str
normalize_search search =
    let search' = trim_space search in
    if not (valid_string search') || ltb maximum_search_runes (rune_count search')
    then err (domain validation)
    else ok search'

unfoldable pub validate_translation : Str → Str → Result (Unit {0})
validate_translation key value =
    let key' = trim_space key in
    if is_empty key'
      || not (valid_string key')
      || ltb maximum_translation_key_runes (rune_count key')
      || not (valid_string value)
      || ltb maximum_translation_value_bytes (length value)
    then err (domain validation)
    else ok tt

-- The places of the dashes.
abbrev pub is_dash_index : ℕ → Bool
is_dash_index index = index == 8 || index == 13 || index == 18 || index == 23

-- The `if` that rejects a character.
abbrev pub outside_hex : ℕ → Bool
outside_hex c = (ltb c b'0' || ltb b'9' c) && (ltb c b'a' || ltb b'f' c)

-- The loop of `validUUID`, with the `nonzero` found so far.
uuid_loop : Bool → List (ℕ × ℕ) → Bool
uuid_loop nonzero [] = nonzero
uuid_loop nonzero ((index, character) ∷ rest) =
    let skipped = uuid_loop nonzero rest in
    let next = uuid_loop (nonzero || not (character == b'0')) rest in
    if is_dash_index index then skipped else if outside_hex character then false else next

unfoldable pub valid_uuid : Str → Bool
unfolding uuid_loop
valid_uuid value =
    if not (length value == 36)
      || not (get_or value 8 0 == b'-')
      || not (get_or value 13 0 == b'-')
      || not (get_or value 18 0 == b'-')
      || not (get_or value 23 0 == b'-')
    then false
    else uuid_loop false (ranges value)
