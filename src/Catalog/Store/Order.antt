-- ===== src/Catalog/Store/Order.antt =====
-- The ordered query of `Translations`: an entry of the scope comes after the shared one of its key.
use clinks.Prelude.{
  ◌≡◌, refl, ◌∙◌, inl, inr, Bool, true, false, ◌&&◌, ◌||◌, not, List, [], ◌∷◌, Option, some,
  if◌then◌else◌, Bool-cases, arith,
}
use clinks.Text.{Str, same, precedes, same_iff}
use clinks.Localization.{scope_shared}
use clinks.Domain.{Translation}
use clinks.Sql.{any_where}
use clinks.Catalog.ByKey.{has_key, last_or, insert_by, order_by}
use clinks.Catalog.Store.{override_before}

precedes_trans : (a b c : Str) → precedes a b ≡ true → precedes b c ≡ true → precedes a c ≡ true
unfolding precedes
precedes_trans [] [] c h g = absurd (ground arith)
precedes_trans [] (y ∷ ys) [] h g = absurd (ground arith)
precedes_trans [] (y ∷ ys) (z ∷ zs) h g = refl
precedes_trans (x ∷ xs) [] c h g = absurd (ground arith)
precedes_trans (x ∷ xs) (y ∷ ys) [] h g = absurd (ground arith)
precedes_trans (x ∷ xs) (y ∷ ys) (z ∷ zs) h g = ground (arith, precedes_trans xs ys zs)

precedes_asym : (a b : Str) → precedes a b ≡ true → precedes b a ≡ false
unfolding precedes
precedes_asym [] b h = ground arith
precedes_asym (x ∷ xs) [] h = absurd (ground arith)
precedes_asym (x ∷ xs) (y ∷ ys) h = ground (arith, precedes_asym xs ys)

before_trans :
    (a b c : Translation)
    → override_before a b ≡ true
    → override_before b c ≡ true
    → override_before a c ≡ true
before_trans a b c h g = ground (
  arith,
  precedes_trans a.key b.key c.key,
  same_iff a.key b.key,
  same_iff b.key c.key,
  same_iff a.key c.key,
)

before_asym : (a b : Translation) → override_before a b ≡ true → override_before b a ≡ false
before_asym a b h =
    ground (arith, precedes_asym a.key b.key, same_iff a.key b.key, same_iff b.key a.key)

-- No later row comes before an earlier one.
unfoldable Ordered : List Translation → Type 0
Ordered [] = Unit
Ordered (x ∷ xs) = (any_where (λ y. override_before y x) xs ≡ false) × Ordered xs

any_where-insert :
    (p : Translation → Bool) (t : Translation) (xs : List Translation)
    → any_where p (insert_by override_before t xs) ≡ (p t || any_where p xs)
unfolding insert_by
any_where-insert p t [] = refl
any_where-insert p t (x ∷ xs) = ground (arith, any_where-insert p t xs)

any_where-order_by :
    (p : Translation → Bool) (ts : List Translation)
    → any_where p (order_by override_before ts) ≡ any_where p ts
unfolding order_by
any_where-order_by p [] = refl
any_where-order_by p (t ∷ ts) =
    ground (arith, any_where-insert p t (order_by override_before ts), any_where-order_by p ts)

nothing_before :
    (t x : Translation) (xs : List Translation)
    → override_before t x ≡ true
    → any_where (λ y. override_before y x) xs ≡ false
    → any_where (λ y. override_before y t) xs ≡ false
nothing_before t x [] b h = refl
nothing_before t x (y ∷ ys) b h =
    let later = nothing_before t x ys b (ground arith) in
    elim (Bool-cases (override_before y t)) [
      | inl e ↦ absurd (ground (arith, before_trans y t x e b))
      | inr n ↦ rw n later
    ]

insert-Ordered :
    (t : Translation) (xs : List Translation)
    → Ordered xs
    → Ordered (insert_by override_before t xs)
unfolding insert_by Ordered
insert-Ordered t [] o = (refl, tt)
insert-Ordered t (x ∷ xs) o = elim (Bool-cases (override_before t x)) [
  | inl e ↦ rw e (rw (before_asym t x e) (nothing_before t x xs e o.0), o)
  | inr n ↦
      let first : any_where (λ y. override_before y x) (insert_by override_before t xs) ≡ false =
        any_where-insert (λ y. override_before y x) t xs ∙ rw n o.0 in
      rw n (first, insert-Ordered t xs o.1)
]

order_by-Ordered : (ts : List Translation) → Ordered (order_by override_before ts)
unfolding order_by Ordered
order_by-Ordered [] = tt
order_by-Ordered (t ∷ ts) = insert-Ordered t (order_by override_before ts) (order_by-Ordered ts)

-- The last row that satisfies a test, or else the other.
unfoldable pub last_where :
    (Translation → Bool) → List Translation → Option Translation → Option Translation
last_where p [] o = o
last_where p (t ∷ ts) o = last_where p ts (if p t then some t else o)

abbrev pub is_shared : Translation → Bool
is_shared t = same t.application_scope scope_shared

abbrev pub shared_key : Str → Translation → Bool
shared_key k t = has_key k t && is_shared t

abbrev pub scope_key : Str → Translation → Bool
scope_key k t = has_key k t && not (is_shared t)

pub last_where-absent :
    (p : Translation → Bool) (ts : List Translation) (o : Option Translation)
    → any_where p ts ≡ false
    → last_where p ts o ≡ o
unfolding last_where
last_where-absent p [] o h = refl
last_where-absent p (t ∷ ts) o h = elim (Bool-cases (p t)) [
  | inl e ↦ absurd (ground arith)
  | inr n ↦ rw n (last_where-absent p ts o (ground arith))
]

-- After a row of the scope no shared row of its key follows.
no_shared_after :
    (k : Str) (x : Translation) (xs : List Translation)
    → scope_key k x ≡ true
    → any_where (λ y. override_before y x) xs ≡ false
    → any_where (shared_key k) xs ≡ false
no_shared_after k x [] e h = refl
no_shared_after k x (y ∷ ys) e h =
    let later = no_shared_after k x ys e (ground arith) in
    ground (arith, later, same_iff y.key k, same_iff x.key k, same_iff y.key x.key)

last_or-Ordered :
    (k : Str) (xs : List Translation) (o : Option Translation)
    → Ordered xs
    → last_or k xs o ≡ last_where (scope_key k) xs (last_where (shared_key k) xs o)
unfolding last_or last_where Ordered
last_or-Ordered k [] o h = refl
last_or-Ordered k (x ∷ xs) o h = elim (Bool-cases (has_key k x)) [
  | inr n ↦ rw (n, last_or-Ordered k xs o h.1) refl
  | inl e ↦ elim (Bool-cases (is_shared x)) [
    | inl s ↦ rw (e, s, last_or-Ordered k xs (some x) h.1) refl
    | inr s ↦
        let absent = no_shared_after k x xs (rw (e, s) refl) h.0 in
        rw
          (
            e,
            s,
            last_or-Ordered k xs (some x) h.1,
            last_where-absent (shared_key k) xs (some x) absent,
          )
          refl
  ]
]

-- At most one row satisfies the test.
abbrev pub Unique : (Translation → Bool) → List Translation → Type 0
Unique p [] = Unit
Unique p (t ∷ ts) = (p t ≡ true → any_where p ts ≡ false) × Unique p ts

last_where-insert :
    (p : Translation → Bool) (t : Translation) (xs : List Translation) (o : Option Translation)
    → (p t ≡ true → any_where p xs ≡ false)
    → last_where p (insert_by override_before t xs) o ≡ last_where p xs (if p t then some t else o)
unfolding last_where insert_by
last_where-insert p t [] o h = refl
last_where-insert p t (x ∷ xs) o h = elim (Bool-cases (override_before t x)) [
  | inl e ↦ rw e refl
  | inr n ↦
      let rest = last_where-insert p t xs (if p x then some x else o) (λ e. ground (arith, h e)) in
      elim (Bool-cases (p t)) [
        | inl e ↦ let other : p x ≡ false = ground (arith, h e) in rw (n, rest, e, other) refl
        | inr m ↦ rw (n, rest, m) refl
      ]
]

last_where-order_by :
    (p : Translation → Bool) (ts : List Translation) (o : Option Translation)
    → Unique p ts
    → last_where p (order_by override_before ts) o ≡ last_where p ts o
unfolding last_where order_by
last_where-order_by p [] o u = refl
last_where-order_by p (t ∷ ts) o u =
    rw
      (
        last_where-insert p t (order_by override_before ts) o
            (λ e. any_where-order_by p ts ∙ u.0 e),
        last_where-order_by p ts (if p t then some t else o) u.1,
      )
      refl

-- In the order of the query the last entry with a key is the one of the scope, or else the shared one.
pub last_or-order_by :
    (k : Str) (ts : List Translation) (o : Option Translation)
    → Unique (scope_key k) ts
    → Unique (shared_key k) ts
    → last_or k (order_by override_before ts) o
      ≡ last_where (scope_key k) ts (last_where (shared_key k) ts o)
last_or-order_by k ts o u v =
    last_or-Ordered k (order_by override_before ts) o (order_by-Ordered ts)
    ∙ rw
        (
          last_where-order_by (shared_key k) ts o v,
          last_where-order_by (scope_key k) ts (last_where (shared_key k) ts o) u,
        )
        refl
