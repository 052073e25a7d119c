-- ===== src/Catalog/ByKey.antt =====
-- A Go map from keys to translations as the list of its entries, and its laws.
use clinks.Prelude.{
  ◌≡◌, refl, subst, inl, inr, Bool, false, ◌||◌, List, [], ◌∷◌, Option, none, some, if◌then◌else◌,
  Bool-cases, arith,
}
use clinks.Text.{Str, same, precedes, same→eq, same_iff}
use clinks.Domain.{Translation}
use clinks.Sql.{first_where, any_where}
use clinks.Sql.Rows.{Keyed}

abbrev pub has_key : Str → Translation → Bool
has_key k t = same t.key k

abbrev pub lookup : Str → List Translation → Option Translation
lookup k ts = first_where (has_key k) ts

abbrev pub DistinctKeys : List Translation → Type 0
DistinctKeys ts = Keyed (λ (t : Translation). t.key) ts

abbrev pub or_else : Option Translation → Option Translation → Option Translation
or_else none o = o
or_else (some t) o = some t

pub or_else-some :
    (a : Option Translation) (t : Translation) (o : Option Translation)
    → or_else a (some t) ≡ or_else (or_else a (some t)) o
or_else-some none t o = refl
or_else-some (some s) t o = refl

pub or_else_idem : (o : Option Translation) → or_else o o ≡ o
or_else_idem none = refl
or_else_idem (some t) = refl

abbrev pub value_of : Option Translation → Option Str
value_of none = none
value_of (some t) = some t.value

-- `m[t.Key] = t`: in its place, or as a new entry.
unfoldable pub put : Translation → List Translation → List Translation
put t [] = t ∷ []
put t (x ∷ xs) = if same x.key t.key then t ∷ xs else x ∷ put t xs

unfoldable pub put_all : List Translation → List Translation → List Translation
unfolding put
put_all [] m = m
put_all (t ∷ ts) m = put_all ts (put t m)

-- The last translation with the key, or else the other.
unfoldable pub last_or : Str → List Translation → Option Translation → Option Translation
last_or k [] o = o
last_or k (t ∷ ts) o = last_or k ts (if same t.key k then some t else o)

pub lookup-put :
    (k : Str) (t : Translation) (m : List Translation)
    → lookup k (put t m) ≡ (if same t.key k then some t else lookup k m)
unfolding put
lookup-put k t [] = ground arith
lookup-put k t (x ∷ xs) =
    ground (arith, lookup-put k t xs, same_iff x.key t.key, same_iff x.key k, same_iff t.key k)

-- After all of them were put, the last with a key is found under it.
pub lookup-put_all :
    (k : Str) (ts m : List Translation) → lookup k (put_all ts m) ≡ last_or k ts (lookup k m)
unfolding put_all last_or
lookup-put_all k [] m = refl
lookup-put_all k (t ∷ ts) m = rw (lookup-put_all k ts (put t m), lookup-put k t m) refl

abbrev mentions : Str → List Translation → Bool
mentions k m = any_where (has_key k) m

mentions-put :
    (k : Str) (t : Translation) (m : List Translation)
    → mentions k (put t m) ≡ (same t.key k || mentions k m)
unfolding put
mentions-put k t [] = ground arith
mentions-put k t (x ∷ xs) =
    ground (arith, mentions-put k t xs, same_iff x.key t.key, same_iff x.key k, same_iff t.key k)

pub put-DistinctKeys :
    (t : Translation) (m : List Translation) → DistinctKeys m → DistinctKeys (put t m)
unfolding put
put-DistinctKeys t [] d = (refl, tt)
put-DistinctKeys t (x ∷ xs) d = elim (Bool-cases (same x.key t.key)) [
  | inl e ↦ let eq = same→eq x.key t.key e in rw e (subst (λ k. mentions k xs ≡ false) eq d.0, d.1)
  | inr n ↦
      let fresh : mentions x.key (put t xs) ≡ false =
        ground (arith, mentions-put x.key t xs, same_iff x.key t.key, same_iff t.key x.key, d.0) in
      rw n (fresh, put-DistinctKeys t xs d.1)
]

pub put_all-DistinctKeys : (ts m : List Translation) → DistinctKeys m → DistinctKeys (put_all ts m)
unfolding put_all
put_all-DistinctKeys [] m d = d
put_all-DistinctKeys (t ∷ ts) m d = put_all-DistinctKeys ts (put t m) (put-DistinctKeys t m d)

-- A sort by a comparison: of `ORDER BY`, or of `slices.SortFunc`.
unfoldable pub insert_by :
    (Translation → Translation → Bool) → Translation → List Translation → List Translation
insert_by before t [] = t ∷ []
insert_by before t (x ∷ xs) = if before t x then t ∷ x ∷ xs else x ∷ insert_by before t xs

unfoldable pub order_by : (Translation → Translation → Bool) → List Translation → List Translation
unfolding insert_by
order_by before [] = []
order_by before (t ∷ ts) = insert_by before t (order_by before ts)

-- `cmp.Compare` of the keys.
abbrev pub key_before : Translation → Translation → Bool
key_before a b = precedes a.key b.key

unfoldable pub sort_by_key : List Translation → List Translation
unfolding order_by
sort_by_key ts = order_by key_before ts

module _ (before : Translation → Translation → Bool) where
  mentions-insert :
      (k : Str) (t : Translation) (xs : List Translation)
      → mentions k (insert_by before t xs) ≡ (same t.key k || mentions k xs)
  unfolding insert_by
  mentions-insert k t [] = refl
  mentions-insert k t (x ∷ xs) = ground (arith, mentions-insert k t xs)

  mentions-order_by :
      (k : Str) (ts : List Translation) → mentions k (order_by before ts) ≡ mentions k ts
  unfolding order_by
  mentions-order_by k [] = refl
  mentions-order_by k (t ∷ ts) =
      ground (arith, mentions-insert k t (order_by before ts), mentions-order_by k ts)

  insert-DistinctKeys :
      (t : Translation) (xs : List Translation)
      → mentions t.key xs ≡ false
      → DistinctKeys xs
      → DistinctKeys (insert_by before t xs)
  unfolding insert_by
  insert-DistinctKeys t [] h d = (refl, tt)
  insert-DistinctKeys t (x ∷ xs) h d = elim (Bool-cases (before t x)) [
    | inl e ↦ rw e (h, d)
    | inr n ↦
        let fresh : mentions x.key (insert_by before t xs) ≡ false =
          ground
            (arith, mentions-insert x.key t xs, same_iff x.key t.key, same_iff t.key x.key, d.0) in
        rw n (fresh, insert-DistinctKeys t xs (ground arith) d.1)
  ]

  order_by-DistinctKeys :
      (ts : List Translation) → DistinctKeys ts → DistinctKeys (order_by before ts)
  unfolding order_by
  order_by-DistinctKeys [] d = tt
  order_by-DistinctKeys (t ∷ ts) d =
      insert-DistinctKeys t (order_by before ts) (rw (mentions-order_by t.key ts) d.0)
        (order_by-DistinctKeys ts d.1)

  lookup-insert :
      (k : Str) (t : Translation) (xs : List Translation)
      → mentions t.key xs ≡ false
      → lookup k (insert_by before t xs) ≡ (if same t.key k then some t else lookup k xs)
  unfolding insert_by
  lookup-insert k t [] h = ground arith
  lookup-insert k t (x ∷ xs) h =
      ground (arith, lookup-insert k t xs, same_iff x.key t.key, same_iff x.key k, same_iff t.key k)

  -- An ordering changes no lookup.
  pub lookup-order_by :
      (k : Str) (ts : List Translation)
      → DistinctKeys ts
      → lookup k (order_by before ts) ≡ lookup k ts
  unfolding order_by
  lookup-order_by k [] d = refl
  lookup-order_by k (t ∷ ts) d =
      rw
        (
          lookup-insert k t (order_by before ts) (rw (mentions-order_by t.key ts) d.0),
          lookup-order_by k ts d.1,
        )
        (ground arith)

pub sort-DistinctKeys : (ts : List Translation) → DistinctKeys ts → DistinctKeys (sort_by_key ts)
unfolding sort_by_key
sort-DistinctKeys ts d = order_by-DistinctKeys key_before ts d

pub lookup-sort :
    (k : Str) (ts : List Translation) → DistinctKeys ts → lookup k (sort_by_key ts) ≡ lookup k ts
unfolding sort_by_key
lookup-sort k ts d = lookup-order_by key_before k ts d
