-- ===== src/Text/Bytes.antt =====
-- The type of Go strings, literals, and the comparison `==` of two strings.
use Prim.Native.Char.{code}
use Prim.Native.String.{String}
use clinks.Prelude.{
  ℕ, ◌≡◌, refl, ◌↔◌, Bool, true, false, ◌&&◌, List, [], ◌∷◌, arith, ltb, ◌==◌, ◌||◌,
}

abbrev pub Str : Type 0
Str = List ℕ

-- The bytes of a literal.
abbrev pub str : String → Str
str String.[] = []
str (String.◌∷◌ c s) = code c ∷ str s

-- `a == b` on strings.
unfoldable pub same : Str → Str → Bool
same [] [] = true
same (a ∷ xs) (b ∷ ys) = a == b && same xs ys
same _ _ = false

pub same→eq : (a b : Str) → same a b ≡ true → a ≡ b
unfolding same
same→eq [] [] h = refl
same→eq (a ∷ xs) (b ∷ ys) h = ground (arith, same→eq xs ys)
same→eq _ _ h = ground arith

pub same_refl : (a : Str) → same a a ≡ true
unfolding same
same_refl [] = refl
same_refl (a ∷ xs) = ground (arith, same_refl xs)

pub same_iff : (a b : Str) → (same a b ≡ true) ↔ (a ≡ b)
same_iff a b = (same→eq a b, λ e. let r = same_refl a in ground (arith, e, r))

-- `a < b` on strings, byte by byte.
unfoldable pub precedes : Str → Str → Bool
precedes [] [] = false
precedes [] (y ∷ ys) = true
precedes (x ∷ xs) [] = false
precedes (x ∷ xs) (y ∷ ys) = ltb x y || (x == y && precedes xs ys)

abbrev pub is_empty : Str → Bool
is_empty [] = true
is_empty (c ∷ cs) = false

-- `slices.Contains` on a slice of strings.
unfoldable pub contains : List Str → Str → Bool
contains [] a = false
contains (x ∷ xs) a = same x a || contains xs a
