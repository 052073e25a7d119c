-- ===== src/Text/Members.antt =====
-- `slices.Contains` decides membership.
use mathlib.Core.Logic.Or
use mathlib.Core.List.{Mem, mem-cons, not-mem-nil}
use mathlib.Core.Bool.{Bool-set}
use clinks.Prelude.{◌≡◌, ◌↔◌, inl, inr, true, List, [], ◌∷◌, arith, Bool-cases, sym}
use clinks.Text.Bytes.{Str, same, contains, same→eq, same_refl}

contains→Mem : (xs : List Str) (a : Str) → contains xs a ≡ true → Mem a xs
unfolding contains
contains→Mem [] a h = cc
contains→Mem (x ∷ xs) a h = elim (Bool-cases (same x a)) [
  | inl e ↦ mem-cons.1 (Or.inl (sym (same→eq x a e)))
  | inr e ↦ mem-cons.1 (Or.inr (contains→Mem xs a (ground arith)))
]

Mem→contains : (xs : List Str) (a : Str) → Mem a xs → contains xs a ≡ true
unfolding contains
Mem→contains [] a m = absurd (not-mem-nil m)
Mem→contains (x ∷ xs) a m =
    Or.elim (Bool-set _ _) (mem-cons.0 m) (λ e. let r = same_refl a in ground (arith, e))
      (λ t. let r = Mem→contains xs a t in ground arith)

pub contains_iff : (xs : List Str) (a : Str) → (contains xs a ≡ true) ↔ Mem a xs
contains_iff xs a = (contains→Mem xs a, Mem→contains xs a)
