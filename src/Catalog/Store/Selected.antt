-- ===== src/Catalog/Store/Selected.antt =====
-- What `Translations` of the store has under a key.
use clinks.Prelude.{
  ◌≡◌, refl, ◌∙◌, sym, ap, subst, inl, inr, Bool, true, false, ◌&&◌, not, List, [], ◌∷◌, Option,
  none, some, if◌then◌else◌, Bool-cases, arith,
}
use clinks.Text.{Str, same, same→eq, same_iff}
use clinks.Localization.{scope_shared}
use clinks.Domain.{Translation}
use clinks.Sql.{any_where}
use clinks.Catalog.ByKey.{
  lookup, DistinctKeys, or_else, or_else-some, or_else_idem, order_by, put_all,
  put_all-DistinctKeys, lookup-put_all, sort-DistinctKeys, lookup-sort,
}
use clinks.Catalog.Store.{override_before, is_override, wanted, scanned, selected, merged}
use clinks.Catalog.Store.Order.{
  last_where, is_shared, shared_key, scope_key, Unique, last_where-absent, last_or-order_by,
}

-- No two rows have the same locale, scope and key.
abbrev pub PrimaryKey : List Translation → Type 0
PrimaryKey rows = (locale scope k : Str) → Unique (is_override locale scope k) rows

abbrev pub scan_row : Option Translation → Option Translation
scan_row none = none
scan_row (some t) = some (scanned t)

-- The override of a key that is in force for a scope: its own, or else the shared one.
abbrev pub override_for : Str → Str → Str → List Translation → Option Translation
override_for locale scope k rows =
    last_where (is_override locale scope k) rows
      (last_where (is_override locale scope_shared k) rows none)

abbrev own_override : Str → Str → Str → Translation → Bool
own_override locale scope k t = is_override locale scope k t && not (is_shared t)

pub merged-DistinctKeys :
    (locale scope : Str) (rows : List Translation) → DistinctKeys (merged locale scope rows)
unfolding merged
merged-DistinctKeys locale scope rows =
    sort-DistinctKeys _
      (put_all-DistinctKeys (order_by override_before (selected locale scope rows)) [] tt)

any_where-own :
    (p : Translation → Bool) (rows : List Translation)
    → any_where p rows ≡ false
    → any_where (λ t. p t && not (is_shared t)) rows ≡ false
any_where-own p [] h = refl
any_where-own p (t ∷ ts) h = ground (arith, any_where-own p ts)

-- A test on the rows of the query is a test on the table.
module _ (locale scope : Str) (p q : Translation → Bool)
    (same_test : (t : Translation) → (wanted locale scope t && p (scanned t)) ≡ q t) where
  any_where-selected :
      (rows : List Translation) → any_where p (selected locale scope rows) ≡ any_where q rows
  unfolding selected
  any_where-selected [] = refl
  any_where-selected (t ∷ ts) = rw (sym (same_test t)) (ground (arith, any_where-selected ts))

  selected-Unique :
      (rows : List Translation) → Unique q rows → Unique p (selected locale scope rows)
  unfolding selected
  selected-Unique [] u = tt
  selected-Unique (t ∷ ts) u = elim (Bool-cases (wanted locale scope t)) [
    | inl e ↦ rw e (
      λ h. any_where-selected ts ∙ u.0 (sym (same_test t) ∙ rw (e, h) refl),
      selected-Unique ts u.1,
    )
    | inr n ↦ rw n (selected-Unique ts u.1)
  ]

  last_where-selected :
      (rows : List Translation) (o : Option Translation)
      → last_where p (selected locale scope rows) (scan_row o) ≡ scan_row (last_where q rows o)
  unfolding selected last_where
  last_where-selected [] o = refl
  last_where-selected (t ∷ ts) o = elim (Bool-cases (wanted locale scope t)) [
    | inr n ↦
        let no : q t ≡ false = sym (same_test t) ∙ rw n refl in
        rw (n, no) (last_where-selected ts o)
    | inl e ↦ elim (Bool-cases (p (scanned t))) [
      | inl y ↦
          let yes : q t ≡ true = sym (same_test t) ∙ rw (e, y) refl in
          rw (e, yes) (rw (y, last_where) (last_where-selected ts (some t)))
      | inr n ↦
          let no : q t ≡ false = sym (same_test t) ∙ rw (e, n) refl in
          rw (e, no) (rw (n, last_where) (last_where-selected ts o))
    ]
  ]

Unique-own :
    (p : Translation → Bool) (rows : List Translation)
    → Unique p rows
    → Unique (λ t. p t && not (is_shared t)) rows
Unique-own p [] u = tt
Unique-own p (t ∷ ts) u = (λ h. any_where-own p ts (u.0 (ground arith)), Unique-own p ts u.1)

module _ (locale scope k : Str) (rows : List Translation) (key : PrimaryKey rows) where
  shared_test :
      (t : Translation)
      → (wanted locale scope t && shared_key k (scanned t)) ≡ is_override locale scope_shared k t
  shared_test t = ground arith

  own_test :
      (t : Translation)
      → (wanted locale scope t && scope_key k (scanned t)) ≡ own_override locale scope k t
  own_test t = ground arith

  lookup-merged_own :
      lookup k (merged locale scope rows)
      ≡ scan_row (
          last_where
            (own_override locale scope k)
            rows
            (last_where (is_override locale scope_shared k) rows none))
  unfolding merged
  lookup-merged_own =
      let found = selected locale scope rows in
      let own = Unique-own (is_override locale scope k) rows (key locale scope k) in
      rw
        (
          lookup-sort k (put_all (order_by override_before found) [])
              (put_all-DistinctKeys (order_by override_before found) [] tt),
          lookup-put_all k (order_by override_before found) [],
          last_or-order_by k found none
              (selected-Unique locale scope (scope_key k) (own_override locale scope k) own_test
                rows own)
              (selected-Unique locale scope (shared_key k) (is_override locale scope_shared k)
                shared_test rows (key locale scope_shared k)),
          last_where-selected locale scope (shared_key k) (is_override locale scope_shared k)
              shared_test rows none,
          last_where-selected locale scope (scope_key k) (own_override locale scope k) own_test rows
              (last_where (is_override locale scope_shared k) rows none),
        )
        refl

last_where-none :
    (p : Translation → Bool) (ts : List Translation) (o : Option Translation)
    → last_where p ts o ≡ or_else (last_where p ts none) o
unfolding last_where
last_where-none p [] o = refl
last_where-none p (t ∷ ts) o = elim (Bool-cases (p t)) [
  | inl e ↦ rw (e, last_where-none p ts (some t)) (or_else-some (last_where p ts none) t o)
  | inr n ↦ rw n (last_where-none p ts o)
]

last_where-twice :
    (p : Translation → Bool) (ts : List Translation)
    → last_where p ts (last_where p ts none) ≡ last_where p ts none
last_where-twice p ts =
    last_where-none p ts (last_where p ts none) ∙ or_else_idem (last_where p ts none)

own_same :
    (locale scope k : Str) (rows : List Translation) (o : Option Translation)
    → same scope scope_shared ≡ false
    → last_where (own_override locale scope k) rows o
      ≡ last_where (is_override locale scope k) rows o
unfolding last_where
own_same locale scope k [] o n = refl
own_same locale scope k (t ∷ ts) o n =
    let tests : own_override locale scope k t ≡ is_override locale scope k t = ground (
      arith,
      same_iff t.application_scope scope,
      same_iff t.application_scope scope_shared,
      same_iff scope scope_shared,
    ) in
    rw tests (own_same locale scope k ts (if is_override locale scope k t then some t else o) n)

own_absent :
    (locale k : Str) (rows : List Translation)
    → any_where (own_override locale scope_shared k) rows ≡ false
own_absent locale k [] = refl
own_absent locale k (t ∷ ts) = ground (arith, own_absent locale k ts)

-- Where the primary key holds, the store answers under every key the override of the scope, or else the
-- shared one.
pub lookup-merged :
    (locale scope k : Str) (rows : List Translation)
    → PrimaryKey rows
    → lookup k (merged locale scope rows) ≡ scan_row (override_for locale scope k rows)
lookup-merged locale scope k rows key = elim (Bool-cases (same scope scope_shared)) [
  | inr n ↦
      lookup-merged_own locale scope k rows key
      ∙ ap scan_row (
          own_same locale scope k rows (last_where (is_override locale scope_shared k) rows none) n)
  | inl e ↦
      subst (λ s. lookup k (merged locale s rows) ≡ scan_row (override_for locale s k rows))
        (sym (same→eq scope scope_shared e))
        (lookup-merged_own locale scope_shared k rows key
          ∙ ap scan_row (
              last_where-absent (own_override locale scope_shared k) rows
                (last_where (is_override locale scope_shared k) rows none)
                (own_absent locale k rows)
              ∙ sym (last_where-twice (is_override locale scope_shared k) rows)))
]
