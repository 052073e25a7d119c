-- ===== src/Text/Space.antt =====
-- `strings.TrimSpace`: `unicode.IsSpace` on the runes at both ends.
use mathlib.Core.List.{reverse, flatten}
use clinks.Prelude.{ℕ, zero, suc, ◌-◌, Bool, ◌||◌, List, [], ◌∷◌, ◌==◌, if◌then◌else◌, take}
use clinks.Text.Bytes.{Str}
use clinks.Text.Utf8.{
  between, rune_width, rune_value, is_two, is_three, is_four, two_bits, three_bits, four_bits,
}

-- `unicode.IsSpace`.
unfoldable pub is_space : ℕ → Bool
is_space r =
    between 0x9 0xd r
    || r == 0x20
    || r == 0x85
    || r == 0xa0
    || r == 0x1680
    || between 0x2000 0x200a r
    || r == 0x2028
    || r == 0x2029
    || r == 0x202f
    || r == 0x205f
    || r == 0x3000

-- The string cut into the bytes of its runes.
unfoldable pub pieces_from : ℕ → Str → List Str
pieces_from skip [] = []
pieces_from (suc skip) (b ∷ bs) = pieces_from skip bs
pieces_from zero (b ∷ bs) = let w = rune_width (b ∷ bs) in take w (b ∷ bs) ∷ pieces_from (w - 1) bs

unfoldable pub drop_spaces : List Str → List Str
unfolding is_space
drop_spaces [] = []
drop_spaces (p ∷ ps) = let rest = drop_spaces ps in if is_space (rune_value p) then rest else p ∷ ps

unfoldable pub trim_space : Str → Str
unfolding flatten pieces_from drop_spaces rune_width rune_value is_two is_three is_four two_bits
    three_bits four_bits
trim_space s = flatten (reverse (drop_spaces (reverse (drop_spaces (pieces_from 0 s)))))
