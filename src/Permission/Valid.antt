-- ===== src/Permission/Valid.antt =====
-- What `ValidPermissions` accepts.
use mathlib.Core.Logic.Or
use mathlib.Core.Bool.{Bool-set}
use mathlib.Core.List.{Mem, Nodup, Nodup-cons, Nodup-nil, mem-cons, not-mem-nil}
use clinks.Prelude.{◌≡◌, refl, ◌↔◌, ◌≢◌, true, false, List, [], ◌∷◌, arith}
use clinks.Text.{Str, contains, contains_iff, same→eq}
use clinks.Permission.{is_valid, valid_loop, valid_permissions}

-- What the loop has checked once it returns true, with the permissions seen before it.
record Accepts (seen ps : List Str) : Type 0 where
  known : (p : Str) → Mem p ps → is_valid p ≡ true
  distinct : Nodup ps
  fresh : (p : Str) → Mem p ps → contains seen p ≡ false

valid_loop_step :
    (seen : List Str) (p : Str) (ps : List Str)
    → valid_loop seen (p ∷ ps) ≡ true
    → (is_valid p ≡ true) × (contains seen p ≡ false) × (valid_loop (p ∷ seen) ps ≡ true)
unfolding valid_loop
valid_loop_step seen p ps h = ground arith

contains-tail :
    (seen : List Str) (p q : Str) → contains (p ∷ seen) q ≡ false → contains seen q ≡ false
unfolding contains
contains-tail seen p q h = ground arith

contains-head : (seen : List Str) (p : Str) → contains (p ∷ seen) p ≡ true
contains-head seen p = (contains_iff (p ∷ seen) p).1 (mem-cons.1 (Or.inl refl))

Accepts-cons :
    (seen : List Str) (p : Str) (ps : List Str)
    → is_valid p ≡ true
    → contains seen p ≡ false
    → Accepts (p ∷ seen) ps
    → Accepts seen (p ∷ ps)
Accepts-cons seen p ps v c rest = record {
  known = λ q m. Or.elim (Bool-set _ _) (mem-cons.0 m) (λ e. rw e v) (rest.known q);
  distinct = Nodup-cons.1 ((λ m. cc (rest.fresh p m, contains-head seen p)), rest.distinct);
  fresh = λ q m.
      Or.elim (Bool-set _ _) (mem-cons.0 m) (λ e. rw e c)
        (λ t. contains-tail seen p q (rest.fresh q t));
}

valid_loop→Accepts : (seen ps : List Str) → valid_loop seen ps ≡ true → Accepts seen ps
valid_loop→Accepts seen [] h = record {
  known = λ p m. absurd (not-mem-nil m);
  distinct = Nodup-nil;
  fresh = λ p m. absurd (not-mem-nil m);
}
valid_loop→Accepts seen (p ∷ ps) h =
    let (v, c, rest) = valid_loop_step seen p ps h in
    Accepts-cons seen p ps v c (valid_loop→Accepts (p ∷ seen) ps rest)

-- What is in neither part of the set is not in the set.
not-contains-cons :
    (seen : List Str) (p q : Str) → contains seen q ≡ false → p ≢ q → contains (p ∷ seen) q ≡ false
unfolding contains
not-contains-cons seen p q c ne = ground (arith, same→eq p q)

Accepts-uncons :
    (seen : List Str) (p : Str) (ps : List Str) → Accepts seen (p ∷ ps) → Accepts (p ∷ seen) ps
Accepts-uncons seen p ps a = record {
  known = λ q m. a.known q (mem-cons.1 (Or.inr m));
  distinct = (Nodup-cons.0 a.distinct).1;
  fresh = λ q m.
      not-contains-cons seen p q (a.fresh q (mem-cons.1 (Or.inr m)))
        (λ e. (Nodup-cons.0 a.distinct).0 (rw e m));
}

Accepts→valid_loop : (seen ps : List Str) → Accepts seen ps → valid_loop seen ps ≡ true
unfolding valid_loop
Accepts→valid_loop seen [] h = refl
Accepts→valid_loop seen (p ∷ ps) h = ground (
  arith,
  h.known p (mem-cons.1 (Or.inl refl)),
  h.fresh p (mem-cons.1 (Or.inl refl)),
  Accepts→valid_loop (p ∷ seen) ps (Accepts-uncons seen p ps h),
)

-- `ValidPermissions` accepts exactly the lists of known permissions with no repetition.
pub valid_permissions_iff :
    (ps : List Str)
    → (valid_permissions ps ≡ true) ↔ (((p : Str) → Mem p ps → is_valid p ≡ true) × Nodup ps)
unfolding valid_permissions contains
valid_permissions_iff ps = (
  λ h. let a = valid_loop→Accepts [] ps h in (a.known, a.distinct),
  λ (known, distinct).
      Accepts→valid_loop [] ps (record { known = known; distinct = distinct; fresh = λ p m. refl }),
)
