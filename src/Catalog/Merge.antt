-- ===== src/Catalog/Merge.antt =====
-- The merge of translations.go, which keeps an index of the keys, is the plain insertion by key.
use clinks.Prelude.{
  ℕ, suc, ◌+◌, ◌≡◌, refl, subst, ◌∙◌, sym, ap, inl, inr, false, List, [], ◌∷◌, ◌++◌, Option, none,
  some, if◌then◌else◌, length, Bool-cases, Option-cases, arith,
}
use clinks.Text.{Str, same, same→eq, same_iff}
use clinks.Domain.{Translation}
use clinks.Sql.{any_where}
use clinks.Catalog.ByKey.{has_key, put, put_all, DistinctKeys}
use clinks.Catalog.Bundle.{set, Index, record_at, index_from, merge_from, merge_translations}

abbrev next : Option ℕ → Option ℕ
next none = none
next (some i) = some (suc i)

-- Where the first translation with a key stands.
position : Str → List Translation → Option ℕ
position k [] = none
position k (x ∷ xs) = if same x.key k then some 0 else next (position k xs)

set-position :
    (t : Translation) (xs : List Translation) (i : ℕ)
    → position t.key xs ≡ some i
    → set xs i t ≡ put t xs
unfolding position put
set-position t [] i h = absurd (ground arith)
set-position t (x ∷ xs) i h = elim (Bool-cases (same x.key t.key)) [
  | inl e ↦ let first : i ≡ 0 = ground arith in rw (e, first) refl
  | inr n ↦ elim (Option-cases (position t.key xs)) [
    | inl none_there ↦ absurd (ground arith)
    | inr (j, e) ↦ let later : i ≡ suc j = ground arith in rw (n, later, set-position t xs j e) refl
  ]
]

append-position :
    (t : Translation) (xs : List Translation) → position t.key xs ≡ none → xs ++ t ∷ [] ≡ put t xs
unfolding position put
append-position t [] h = refl
append-position t (x ∷ xs) h = ground (arith, append-position t xs)

position-put :
    (k : Str) (t : Translation) (xs : List Translation) (i : ℕ)
    → position t.key xs ≡ some i
    → position k (put t xs) ≡ position k xs
unfolding position put
position-put k t [] i h = absurd (ground arith)
position-put k t (x ∷ xs) i h = elim (Bool-cases (same x.key t.key)) [
  | inl e ↦ ground (arith, same_iff x.key t.key)
  | inr n ↦ elim (Option-cases (position t.key xs)) [
    | inl none_there ↦ absurd (ground arith)
    | inr (j, e) ↦ ground (arith, position-put k t xs j e)
  ]
]

position-append :
    (k : Str) (t : Translation) (xs : List Translation)
    → position t.key xs ≡ none
    → position k (xs ++ t ∷ []) ≡ record_at t.key (length xs) (λ j. position j xs) k
unfolding position
position-append k t [] h = ground arith
position-append k t (x ∷ xs) h =
    ground (arith, position-append k t xs, same_iff x.key t.key, same_iff t.key k, same_iff x.key k)

-- An index that says where every key stands.
abbrev Indexes : Index → List Translation → Type 0
Indexes index xs = (k : Str) → index k ≡ position k xs

merge_from-eq-put_all :
    (ts result : List Translation) (index : Index)
    → Indexes index result
    → merge_from ts result index ≡ put_all ts result
unfolding merge_from put_all
merge_from-eq-put_all [] result index h = refl
merge_from-eq-put_all (t ∷ ts) result index h = elim (Option-cases (position t.key result)) [
  | inr (i, e) ↦
      let e' : index t.key ≡ some i = h t.key ∙ e in
      let rest =
        merge_from-eq-put_all ts (put t result) index
          (λ k. h k ∙ sym (position-put k t result i e)) in
      rw e' (rw (set-position t result i e) rest)
  | inl n ↦
      let n' : index t.key ≡ none = h t.key ∙ n in
      let eq = append-position t result n in
      let rest =
        merge_from-eq-put_all ts (result ++ t ∷ []) (record_at t.key (length result) index)
          (λ k. rw (position-append k t result n, h k) refl) in
      rw n' (rest ∙ ap (put_all ts) eq)
]

-- The index of the fallback, shifted.
abbrev or_index : ℕ → Option ℕ → Option ℕ → Option ℕ
or_index i none o = o
or_index i (some j) o = some (i + j)

position-absent :
    (k : Str) (xs : List Translation) → any_where (has_key k) xs ≡ false → position k xs ≡ none
unfolding position
position-absent k [] h = refl
position-absent k (x ∷ xs) h = ground (arith, position-absent k xs)

index_from_lem :
    (k : Str) (i : ℕ) (xs : List Translation) (index : Index)
    → DistinctKeys xs
    → index_from i xs index k ≡ or_index i (position k xs) (index k)
unfolding index_from position
index_from_lem k i [] index d = refl
index_from_lem k i (t ∷ ts) index d =
    let rest = index_from_lem k (i + 1) ts (record_at t.key i index) d.1 in
    elim (Bool-cases (same t.key k)) [
      | inl e ↦
          let absent : position k ts ≡ none =
            position-absent k ts
              (subst (λ j. any_where (has_key j) ts ≡ false) (same→eq t.key k e) d.0) in
          ground (arith, rest, absent)
      | inr n ↦ elim (Option-cases (position k ts)) [
        | inl absent ↦ ground (arith, rest, absent)
        | inr (j, e) ↦ ground (arith, rest, e)
      ]
    ]

start_index :
    (k : Str) (xs : List Translation)
    → DistinctKeys xs
    → index_from 0 xs (λ j. none) k ≡ position k xs
start_index k xs d = elim (Option-cases (position k xs)) [
  | inl n ↦ ground (arith, index_from_lem k 0 xs (λ j. none) d)
  | inr (i, e) ↦ ground (arith, index_from_lem k 0 xs (λ j. none) d)
]

-- Where no two fallbacks have the same key, the merge of the service, which finds keys by an index, is
-- the plain insertion of the overrides one by one.
pub merge_translations-eq-put_all :
    (fallback overrides : List Translation)
    → DistinctKeys fallback
    → merge_translations fallback overrides ≡ put_all overrides fallback
unfolding merge_translations
merge_translations-eq-put_all fallback overrides d =
    merge_from-eq-put_all overrides fallback (index_from 0 fallback (λ k. none))
      (λ k. start_index k fallback d)
