-- ===== src/Sql/Trimmed.antt =====
-- What `strings.TrimSpace` returns is what `btrim` leaves alone.
use mathlib.Core.List.{reverse, reverse-cons, reverse-append, flatten}
use clinks.Prelude.{
  ◌≡◌, refl, inl, inr, ℕ, zero, suc, ◌-◌, Bool, true, false, ◌&&◌, ◌||◌, not, List, [], ◌∷◌, ◌++◌,
  arith, Bool-cases, ◌==◌, All, take, if◌then◌else◌,
}
use clinks.Text.{Str, is_empty, trim_space}
use clinks.Text.Space.{is_space, pieces_from}
use clinks.Text.Space
use clinks.Text.Utf8.{rune_width, rune_value, is_two, is_three, is_four}
use clinks.Sql.{btrim, drop_spaces, drop_spaces_end}

-- Bytes of which none is a space, and which are some.
abbrev no_blank : Str → Bool
no_blank [] = true
no_blank (b ∷ bs) = not (b == 32) && no_blank bs

abbrev firm : Str → Bool
firm p = not (is_empty p) && no_blank p

-- A rune is a space or has no byte of one.
abbrev good : Str → Bool
good p = is_space (rune_value p) || firm p

or-true : (a : Bool) → (a || true) ≡ true
or-true a = ground arith

firm-good : (p : Str) → firm p ≡ true → good p ≡ true
firm-good p h = rw h (or-true (is_space (rune_value p)))

one-good : (b : ℕ) → good (b ∷ []) ≡ true
unfolding rune_value is_space is_two is_three is_four
one-good b = ground arith

four-good :
    (b c d : ℕ) (ds : Str)
    → good (take (if is_four (b ∷ c ∷ d ∷ ds) then 4 else 1) (b ∷ c ∷ d ∷ ds)) ≡ true
unfolding is_four
four-good b c d [] = one-good b
four-good b c d (e ∷ es) = elim (Bool-cases (is_four (b ∷ c ∷ d ∷ e ∷ es))) [
  | inl h ↦ rw h (firm-good (b ∷ c ∷ d ∷ e ∷ []) (ground arith))
  | inr n ↦ rw n (one-good b)
]

three-good :
    (b c : ℕ) (cs : Str)
    → good (
        take
          (if is_three (b ∷ c ∷ cs) then 3 else if is_four (b ∷ c ∷ cs) then 4 else 1)
          (b ∷ c ∷ cs))
      ≡ true
unfolding is_three is_four
three-good b c [] = one-good b
three-good b c (d ∷ ds) = elim (Bool-cases (is_three (b ∷ c ∷ d ∷ ds))) [
  | inl h ↦ rw h (firm-good (b ∷ c ∷ d ∷ []) (ground arith))
  | inr n ↦ rw n (four-good b c d ds)
]

piece-good : (b : ℕ) (bs : Str) → good (take (rune_width (b ∷ bs)) (b ∷ bs)) ≡ true
unfolding rune_width is_two is_three is_four
piece-good b [] = one-good b
piece-good b (c ∷ cs) = elim (Bool-cases (is_two (b ∷ c ∷ cs))) [
  | inl h ↦ rw h (firm-good (b ∷ c ∷ []) (ground arith))
  | inr n ↦ rw n (three-good b c cs)
]

pieces-good : (skip : ℕ) (s : Str) → All (λ p. good p ≡ true) (pieces_from skip s)
unfolding pieces_from
pieces-good skip [] = tt
pieces-good (suc skip) (b ∷ bs) = pieces-good skip bs
pieces-good zero (b ∷ bs) = (piece-good b bs, pieces-good (rune_width (b ∷ bs) - 1) bs)

-- The first piece is not a space.
abbrev Starts : List Str → Type 0
Starts [] = Unit
Starts (p ∷ ps) = (is_space (rune_value p) ≡ false) × (firm p ≡ true)

drop-All : (P : Str → Type 0) (ps : List Str) → All P ps → All P (Space.drop_spaces ps)
unfolding Space.drop_spaces
drop-All P [] a = tt
drop-All P (p ∷ ps) a = elim (Bool-cases (is_space (rune_value p))) [
  | inl h ↦ rw h (drop-All P ps a.1)
  | inr n ↦ rw n a
]

drop-Starts : (ps : List Str) → All (λ p. good p ≡ true) ps → Starts (Space.drop_spaces ps)
unfolding Space.drop_spaces
drop-Starts [] a = tt
drop-Starts (p ∷ ps) a = elim (Bool-cases (is_space (rune_value p))) [
  | inl h ↦ rw h (drop-Starts ps a.1)
  | inr n ↦ let f : firm p ≡ true = ground (arith, a.0) in rw n (n, f)
]

-- What ends in a rune that is no space keeps it.
drop-last :
    (xs : List Str) (q : Str)
    → is_space (rune_value q) ≡ false
    → ((zs : List Str) × (Space.drop_spaces (xs ++ q ∷ []) ≡ zs ++ q ∷ []))
unfolding Space.drop_spaces
drop-last [] q n = ([], rw n refl)
drop-last (x ∷ xs) q n = elim (Bool-cases (is_space (rune_value x))) [
  | inl h ↦ let (zs, e) = drop-last xs q n in (zs, rw h e)
  | inr k ↦ (x ∷ xs, rw k refl)
]

All-snoc : (P : Str → Type 0) (xs : List Str) (x : Str) → All P xs → P x → All P (xs ++ x ∷ [])
All-snoc P [] x a p = (p, tt)
All-snoc P (y ∷ ys) x a p = (a.0, All-snoc P ys x a.1 p)

All-reverse : (P : Str → Type 0) (xs : List Str) → All P xs → All P (reverse xs)
All-reverse P [] a = tt
All-reverse P (x ∷ xs) a =
    rw (reverse-cons x xs) (All-snoc P (reverse xs) x (All-reverse P xs a.1) a.0)

start-fixed : (ps : List Str) → Starts ps → drop_spaces (flatten ps) ≡ flatten ps
unfolding drop_spaces flatten
start-fixed [] h = refl
start-fixed ([] ∷ ps) h = absurd (ground arith)
start-fixed ((b ∷ bs) ∷ ps) h = let other : (b == 32) ≡ false = ground arith in rw other refl

-- A text that `drop_spaces_end` leaves alone, and that is not empty.
abbrev Ended : Str → Type 0
Ended s = (drop_spaces_end s ≡ s) × (is_empty s ≡ false)

Ended-cons : (b : ℕ) (s : Str) → Ended s → Ended (b ∷ s)
unfolding drop_spaces_end
Ended-cons b s (e, n) = (rw (e, n) (ground arith), refl)

Ended-append : (t s : Str) → Ended s → Ended (t ++ s)
Ended-append [] s h = h
Ended-append (b ∷ bs) s h = Ended-cons b (bs ++ s) (Ended-append bs s h)

firm-Ended : (p : Str) → firm p ≡ true → Ended (p ++ [])
unfolding drop_spaces_end
firm-Ended [] h = absurd (ground arith)
firm-Ended (b ∷ []) h = let other : (b == 32) ≡ false = ground arith in (rw other refl, refl)
firm-Ended (b ∷ c ∷ cs) h = Ended-cons b (c ∷ cs ++ []) (firm-Ended (c ∷ cs) (ground arith))

last-Ended : (ps : List Str) (p : Str) → firm p ≡ true → Ended (flatten (ps ++ p ∷ []))
unfolding flatten
last-Ended [] p h = firm-Ended p h
last-Ended (q ∷ qs) p h = Ended-append q (flatten (qs ++ p ∷ [])) (last-Ended qs p h)

end-fixed :
    (ps : List Str) → Starts ps → drop_spaces_end (flatten (reverse ps)) ≡ flatten (reverse ps)
unfolding drop_spaces_end flatten
end-fixed [] h = refl
end-fixed (p ∷ ps) h = rw (reverse-cons p ps) (last-Ended (reverse ps) p h.1).0

Starts-back : (ps : List Str) → Starts ps → Starts (reverse (Space.drop_spaces (reverse ps)))
unfolding Space.drop_spaces
Starts-back [] h = tt
Starts-back (q ∷ qs) h =
    let (zs, e) = drop-last (reverse qs) q h.0 in
    rw (reverse-cons q qs, e, reverse-append zs (q ∷ [])) h

-- What the service trims, the database's `btrim` leaves as it is.
pub btrim-trim_space : (s : Str) → btrim (trim_space s) ≡ trim_space s
unfolding btrim trim_space
btrim-trim_space s =
    let front = Space.drop_spaces (pieces_from 0 s) in
    let all = drop-All (λ p. good p ≡ true) (pieces_from 0 s) (pieces-good 0 s) in
    let starts = drop-Starts (pieces_from 0 s) (pieces-good 0 s) in
    let ends = drop-Starts (reverse front) (All-reverse (λ p. good p ≡ true) front all) in
    rw (end-fixed (Space.drop_spaces (reverse front)) ends)
      (start-fixed (reverse (Space.drop_spaces (reverse front))) (Starts-back front starts))
