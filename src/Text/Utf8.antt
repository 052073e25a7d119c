-- ===== src/Text/Utf8.antt =====
-- Go's UTF-8 decoder (`utf8.DecodeRuneInString`), `for index, rune := range s`,
-- `utf8.ValidString` and `utf8.RuneCountInString`.
use clinks.Prelude.{
  ℕ, zero, suc, ◌+◌, ◌-◌, ◌*◌, ◌≤◌, Bool, true, false, ◌&&◌, ◌||◌, List, [], ◌∷◌, arith, ltb, leb,
  ◌==◌, if◌then◌else◌, length,
}
use clinks.Text.Bytes.{Str}

abbrev pub between : ℕ → ℕ → ℕ → Bool
between lo hi b = leb lo b && leb b hi

-- A continuation byte at the head.
abbrev pub tail_byte : ℕ → Bool
tail_byte = between 0x80 0xbf

-- The bounds on the second byte that rule out overlong forms, surrogates and values past U+10FFFF.
abbrev pub second_byte : ℕ → ℕ → Bool
second_byte a b =
    if a == 0xe0
    then between 0xa0 0xbf b
    else if a == 0xed
    then between 0x80 0x9f b
    else if a == 0xf0
    then between 0x90 0xbf b
    else if a == 0xf4
    then between 0x80 0x8f b
    else tail_byte b

-- A well-formed sequence of two, three, four bytes at the head.
unfoldable pub is_two : Str → Bool
is_two (a ∷ b ∷ rest) = between 0xc2 0xdf a && tail_byte b
is_two _ = false

unfoldable pub is_three : Str → Bool
is_three (a ∷ b ∷ c ∷ rest) = between 0xe0 0xef a && second_byte a b && tail_byte c
is_three _ = false

unfoldable pub is_four : Str → Bool
is_four (a ∷ b ∷ c ∷ d ∷ rest) =
    between 0xf0 0xf4 a && second_byte a b && tail_byte c && tail_byte d
is_four _ = false

-- The size that `DecodeRuneInString` returns; 1 for an ASCII byte and for a malformed sequence.
unfoldable pub rune_width : Str → ℕ
rune_width s = if is_two s then 2 else if is_three s then 3 else if is_four s then 4 else 1

-- `utf8.RuneError`.
abbrev pub rune_error : ℕ
rune_error = 0xfffd

unfoldable pub four_bits : Str → ℕ
four_bits (a ∷ b ∷ c ∷ d ∷ rest) =
    (a - 0xf0) * 0x40000 + (b - 0x80) * 0x1000 + (c - 0x80) * 0x40 + (d - 0x80)
four_bits _ = 0

unfoldable pub three_bits : Str → ℕ
three_bits (a ∷ b ∷ c ∷ rest) = (a - 0xe0) * 0x1000 + (b - 0x80) * 0x40 + (c - 0x80)
three_bits _ = 0

unfoldable pub two_bits : Str → ℕ
two_bits (a ∷ b ∷ rest) = (a - 0xc0) * 0x40 + (b - 0x80)
two_bits _ = 0

abbrev pub one_byte : Str → ℕ
one_byte (a ∷ rest) = if ltb a 0x80 then a else rune_error
one_byte [] = rune_error

-- The rune that `DecodeRuneInString` returns.
unfoldable pub rune_value : Str → ℕ
rune_value s =
    if is_two s
    then two_bits s
    else if is_three s
    then three_bits s
    else if is_four s
    then four_bits s
    else one_byte s

-- The pairs that `for index, rune := range s` goes through, from byte `index` on; `skip` bytes
-- still belong to the rune before.
unfoldable pub ranges_from : ℕ → ℕ → Str → List (ℕ × ℕ)
ranges_from index skip [] = []
ranges_from index (suc skip) (b ∷ bs) = ranges_from (index + 1) skip bs
ranges_from index zero (b ∷ bs) =
    (index, rune_value (b ∷ bs)) ∷ ranges_from (index + 1) (rune_width (b ∷ bs) - 1) bs

unfoldable pub ranges : Str → List (ℕ × ℕ)
unfolding ranges_from rune_width rune_value is_two is_three is_four two_bits three_bits four_bits
ranges s = ranges_from 0 0 s

-- `utf8.RuneCountInString`.
unfoldable pub rune_count : Str → ℕ
unfolding ranges
rune_count s = length (ranges s)

-- `utf8.ValidString`: no byte is decoded as an error of size 1.
unfoldable pub valid_from : ℕ → Str → Bool
valid_from skip [] = true
valid_from (suc skip) (b ∷ bs) = valid_from skip bs
valid_from zero (b ∷ bs) =
    let w = rune_width (b ∷ bs) in (ltb b 0x80 || ltb 1 w) && valid_from (w - 1) bs

unfoldable pub valid_string : Str → Bool
unfolding valid_from rune_width is_two is_three is_four
valid_string s = valid_from 0 s

length-ranges_from-le : (index skip : ℕ) (s : Str) → length (ranges_from index skip s) ≤ length s
unfolding ranges_from
length-ranges_from-le index skip [] = omega arith
length-ranges_from-le index zero (b ∷ bs) =
    omega (arith, length-ranges_from-le (index + 1) (rune_width (b ∷ bs) - 1) bs)
length-ranges_from-le index (suc skip) (b ∷ bs) =
    omega (arith, length-ranges_from-le (index + 1) skip bs)

pub rune_count-le : (s : Str) → rune_count s ≤ length s
unfolding rune_count ranges
rune_count-le s = length-ranges_from-le 0 0 s
