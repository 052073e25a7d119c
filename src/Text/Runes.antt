-- ===== src/Text/Runes.antt =====
-- Facts about the decoder at the head of a string.
use clinks.Prelude.{ℕ, ◌≤◌, ◌<◌, ◌≡◌, refl, true, false, [], ◌∷◌, arith}
use clinks.Text.Bytes.{Str}
use clinks.Text.Utf8.{
  rune_width, rune_value, is_two, is_three, is_four, two_bits, three_bits, four_bits,
}

module _ (b : ℕ) (h : b < 0x80) where
  is_two-ascii : (bs : Str) → is_two (b ∷ bs) ≡ false
  unfolding is_two
  is_two-ascii [] = refl
  is_two-ascii (c ∷ cs) = ground arith

  is_three-ascii : (bs : Str) → is_three (b ∷ bs) ≡ false
  unfolding is_three
  is_three-ascii [] = refl
  is_three-ascii (c ∷ []) = refl
  is_three-ascii (c ∷ d ∷ ds) = ground arith

  is_four-ascii : (bs : Str) → is_four (b ∷ bs) ≡ false
  unfolding is_four
  is_four-ascii [] = refl
  is_four-ascii (c ∷ []) = refl
  is_four-ascii (c ∷ d ∷ []) = refl
  is_four-ascii (c ∷ d ∷ e ∷ es) = ground arith

  -- An ASCII byte is a rune of its own.
  pub rune_value-ascii : (bs : Str) → rune_value (b ∷ bs) ≡ b
  unfolding rune_value
  rune_value-ascii bs = rw (is_two-ascii bs, is_three-ascii bs, is_four-ascii bs) (ground arith)

  pub rune_width-ascii : (bs : Str) → rune_width (b ∷ bs) ≡ 1
  unfolding rune_width
  rune_width-ascii bs = rw (is_two-ascii bs, is_three-ascii bs, is_four-ascii bs)

two_bits-high : (s : Str) → is_two s ≡ true → 0x80 ≤ two_bits s
unfolding is_two two_bits
two_bits-high [] h = cc
two_bits-high (a ∷ []) h = cc
two_bits-high (a ∷ b ∷ bs) h = ground arith

three_bits-high : (s : Str) → is_three s ≡ true → 0x80 ≤ three_bits s
unfolding is_three three_bits
three_bits-high [] h = cc
three_bits-high (a ∷ []) h = cc
three_bits-high (a ∷ b ∷ []) h = cc
three_bits-high (a ∷ b ∷ c ∷ cs) h = ground arith

four_bits-high : (s : Str) → is_four s ≡ true → 0x80 ≤ four_bits s
unfolding is_four four_bits
four_bits-high [] h = cc
four_bits-high (a ∷ []) h = cc
four_bits-high (a ∷ b ∷ []) h = cc
four_bits-high (a ∷ b ∷ c ∷ []) h = cc
four_bits-high (a ∷ b ∷ c ∷ d ∷ ds) h = ground arith

-- Any other byte begins a rune past ASCII, or stands for `RuneError`.
pub rune_value-high : (b : ℕ) (bs : Str) → 0x80 ≤ b → 0x80 ≤ rune_value (b ∷ bs)
unfolding rune_value
rune_value-high b bs h =
    ground (arith, two_bits-high (b ∷ bs), three_bits-high (b ∷ bs), four_bits-high (b ∷ bs))
