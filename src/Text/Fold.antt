-- ===== src/Text/Fold.antt =====
-- `strings.ToLower`, `strings.ToUpper` and `strings.Cut`. The case tables of Unicode beyond ASCII
-- are a parameter.
use clinks.Prelude.{
  ℕ, ◌+◌, ◌-◌, ◌/◌, ◌%◌, Bool, true, false, List, [], ◌∷◌, ◌++◌, ltb, ◌==◌, if◌then◌else◌,
}
use clinks.Text.Bytes.{Str}
use clinks.Text.Utf8.{between, ranges}

-- `unicode.ToLower` and `unicode.ToUpper` on the runes from U+0080 on.
pub record CaseTables : Type 0 where
  pub lower_rune : ℕ → ℕ
  pub upper_rune : ℕ → ℕ

-- `utf8.AppendRune`.
encode_rune : ℕ → Str
encode_rune r =
    if ltb r 0x80
    then r ∷ []
    else if ltb r 0x800
    then (0xc0 + r / 0x40) ∷ (0x80 + r % 0x40) ∷ []
    else if ltb r 0x10000
    then (0xe0 + r / 0x1000) ∷ (0x80 + r / 0x40 % 0x40) ∷ (0x80 + r % 0x40) ∷ []
    else (0xf0 + r / 0x40000)
      ∷ (0x80 + r / 0x1000 % 0x40)
      ∷ (0x80 + r / 0x40 % 0x40)
      ∷ (0x80 + r % 0x40)
      ∷ []

map_runes : (ℕ → ℕ) → List (ℕ × ℕ) → Str
unfolding encode_rune
map_runes f [] = []
map_runes f ((i, r) ∷ rs) = encode_rune (f r) ++ map_runes f rs

abbrev lower_of : CaseTables → ℕ → ℕ
lower_of t r = if ltb r 0x80 then (if between b'A' b'Z' r then r + 32 else r) else t.lower_rune r

abbrev upper_of : CaseTables → ℕ → ℕ
upper_of t r = if ltb r 0x80 then (if between b'a' b'z' r then r - 32 else r) else t.upper_rune r

unfoldable pub to_lower : CaseTables → Str → Str
unfolding map_runes ranges
to_lower t s = map_runes (lower_of t) (ranges s)

unfoldable pub to_upper : CaseTables → Str → Str
unfolding map_runes ranges
to_upper t s = map_runes (upper_of t) (ranges s)

-- `strings.Cut(s, sep)` at a separator of one byte: before, after, found.
unfoldable pub cut : ℕ → Str → Str × Str × Bool
cut sep [] = ([], [], false)
cut sep (b ∷ bs) =
    let (before, after, found) = cut sep bs in
    if b == sep then ([], bs, true) else (b ∷ before, after, found)
