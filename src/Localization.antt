-- ===== src/Localization.antt =====
-- localization.go: locales and application scopes.
use clinks.Prelude.{
  ℕ, Bool, true, false, ◌||◌, not, List, [], ◌∷◌, ◌++◌, ltb, ◌==◌, if◌then◌else◌, length,
}
use clinks.Text.{Str, str, same, is_empty, ranges, trim_space, CaseTables, to_lower, to_upper, cut}
use clinks.Errors.{Result, ok, err, domain, validation}

abbrev pub scope_shared : Str
scope_shared = str "shared"

abbrev pub scope_admin : Str
scope_admin = str "admin"

abbrev pub scope_planer_link : Str
scope_planer_link = str "planer_link"

abbrev pub scope_infra_link : Str
scope_infra_link = str "infra_link"

-- The loops of `lowerASCIILetters` and `upperASCIILetters`.
letters_between : ℕ → ℕ → List (ℕ × ℕ) → Bool
letters_between lo hi [] = true
letters_between lo hi ((index, character) ∷ rest) =
    let later = letters_between lo hi rest in
    if ltb character lo || ltb hi character then false else later

unfoldable pub lower_ascii_letters : Str → ℕ → ℕ → Bool
unfolding letters_between ranges
lower_ascii_letters value minimum_length maximum_length =
    if ltb (length value) minimum_length || ltb maximum_length (length value)
    then false
    else letters_between b'a' b'z' (ranges value)

unfoldable pub upper_ascii_letters : Str → ℕ → Bool
unfolding letters_between ranges
upper_ascii_letters value size =
    if not (length value == size) then false else letters_between b'A' b'Z' (ranges value)

-- `NewLocale`.
unfoldable pub new_locale : CaseTables → Str → Str
unfolding cut trim_space to_lower to_upper
new_locale t value =
    let (language, region, has_region) = cut b'-' (trim_space value) in
    let language' = to_lower t language in
    if not has_region then language' else language' ++ str "-" ++ to_upper t region

-- `Locale.IsValid`.
unfoldable pub locale_is_valid : Str → Bool
unfolding cut lower_ascii_letters upper_ascii_letters
locale_is_valid locale =
    let (language, region, has_region) = cut b'-' locale in
    if not (lower_ascii_letters language 2 3)
    then false
    else if not has_region
    then true
    else upper_ascii_letters region 2

unfoldable pub parse_locale : CaseTables → Str → Result Str
unfolding new_locale locale_is_valid
parse_locale t value =
    let locale = new_locale t value in
    if not (locale_is_valid locale) then err (domain validation) else ok locale

-- `ApplicationScope.IsValid`.
unfoldable pub scope_is_valid : Str → Bool
scope_is_valid scope =
    same scope scope_shared
    || same scope scope_admin
    || same scope scope_planer_link
    || same scope scope_infra_link

unfoldable pub parse_application_scope : CaseTables → Str → Result Str
unfolding scope_is_valid
parse_application_scope t value =
    let value' = to_lower t (trim_space value) in
    if is_empty value'
    then ok scope_shared
    else if not (scope_is_valid value')
    then err (domain validation)
    else ok value'
