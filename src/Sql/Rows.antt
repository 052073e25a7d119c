-- ===== src/Sql/Rows.antt =====
-- Lemmas on the statements of `Sql`, and tables with a primary key.
use clinks.Prelude.{
  ◌≡◌, refl, inl, inr, Bool, true, false, ◌&&◌, not, List, [], ◌∷◌, ◌++◌, some, if◌then◌else◌,
  arith, Bool-cases, and-eq-true, subst, if_either,
}
use clinks.Text.{Str, same, same→eq, same_iff}
use clinks.Errors.{Err, err, Result-cases}
use clinks.Exec.{Act}
use clinks.Sql.{update_where, first_where, any_where, transaction}

module _ {A : Type 0} where
  -- A row that an update leaves alone still passes what it passed.
  pub any_where-update_other :
      (q p : A → Bool) (f : A → A) (xs : List A)
      → any_where (λ x. q x && not (p x)) xs ≡ true
      → any_where q (update_where p f xs) ≡ true
  any_where-update_other q p f [] h = h
  any_where-update_other q p f (x ∷ xs) h = elim (Bool-cases (p x)) [
    | inl t ↦ ground (arith, any_where-update_other q p f xs)
    | inr n ↦ ground (arith, any_where-update_other q p f xs)
  ]

  -- An update whose results all pass a test keeps that some row passes it.
  pub any_where-update_all :
      (q p : A → Bool) (f : A → A) (xs : List A)
      → ((x : A) → p x ≡ true → q (f x) ≡ true)
      → any_where q xs ≡ true
      → any_where q (update_where p f xs) ≡ true
  any_where-update_all q p f [] s h = h
  any_where-update_all q p f (x ∷ xs) s h = elim (Bool-cases (p x)) [
    | inl t ↦ ground (arith, s x t)
    | inr n ↦ ground (arith, any_where-update_all q p f xs s)
  ]

  -- A weaker test.
  pub any_where_mono :
      (q q' : A → Bool) (xs : List A)
      → ((x : A) → q x ≡ true → q' x ≡ true)
      → any_where q xs ≡ true
      → any_where q' xs ≡ true
  any_where_mono q q' [] s h = h
  any_where_mono q q' (x ∷ xs) s h = elim (Bool-cases (q x)) [
    | inl t ↦ ground (arith, s x t)
    | inr n ↦ ground (arith, any_where_mono q q' xs s)
  ]

  -- A test that no row passes.
  pub not-any_where :
      (q : A → Bool) (xs : List A) → ((x : A) → q x ≡ false) → any_where q xs ≡ false
  not-any_where q [] s = refl
  not-any_where q (x ∷ xs) s = ground (arith, s x, not-any_where q xs s)

  pub first_where-passes :
      (p : A → Bool) (xs : List A) (x : A) → first_where p xs ≡ some x → p x ≡ true
  first_where-passes p [] x h = absurd (ground arith)
  first_where-passes p (y ∷ ys) x h = elim (Bool-cases (p y)) [
    | inl t ↦ ground arith
    | inr n ↦ ground (arith, first_where-passes p ys x)
  ]

  pub any_where-first_where :
      (p q : A → Bool) (xs : List A) (x : A)
      → first_where p xs ≡ some x
      → q x ≡ true
      → any_where q xs ≡ true
  any_where-first_where p q [] x h t = absurd (ground arith)
  any_where-first_where p q (y ∷ ys) x h t = elim (Bool-cases (p y)) [
    | inl e ↦ ground arith
    | inr n ↦ ground (arith, any_where-first_where p q ys x)
  ]

  -- What is found after an update that its result, and a search for an unchanged column, agree with.
  pub first_where-update :
      (q p : A → Bool) (f : A → A) (xs : List A) (x : A)
      → ((y : A) → q (f y) ≡ q y)
      → first_where q xs ≡ some x
      → p x ≡ true
      → first_where q (update_where p f xs) ≡ some (f x)
  first_where-update q p f [] x s h t = absurd (ground arith)
  first_where-update q p f (y ∷ ys) x s h t = elim (Bool-cases (q y)) [
    | inr n ↦ elim (Bool-cases (p y)) [
      | inl e ↦ ground (arith, s y, first_where-update q p f ys x s)
      | inr e ↦ ground (arith, first_where-update q p f ys x s)
    ]
    | inl e ↦
        let same_row : y ≡ x = ground arith in
        let passes : p y ≡ true = rw same_row t in rw (passes, s y, e, same_row) refl
  ]

  pub any_where-append :
      (q : A → Bool) (xs : List A) (x : A) → q x ≡ true → any_where q (xs ++ x ∷ []) ≡ true
  any_where-append q [] x h = ground arith
  any_where-append q (y ∷ ys) x h = ground (arith, any_where-append q ys x h)

  -- A row that an update changes passes what all its results pass.
  pub any_where-updated :
      (q p : A → Bool) (f : A → A) (xs : List A) (x : A)
      → ((y : A) → p y ≡ true → q (f y) ≡ true)
      → first_where p xs ≡ some x
      → any_where q (update_where p f xs) ≡ true
  any_where-updated q p f [] x s h = absurd (ground arith)
  any_where-updated q p f (y ∷ ys) x s h = elim (Bool-cases (p y)) [
    | inl e ↦ ground (arith, s y e)
    | inr n ↦ ground (arith, any_where-updated q p f ys x s)
  ]

-- A primary key: no two rows have the same.
module _ {A : Type 0} (key : A → Str) where
  abbrev pub Keyed : List A → Type 0
  Keyed [] = Unit
  Keyed (x ∷ xs) = (any_where (λ y. same (key y) (key x)) xs ≡ false) × Keyed xs

  absent_others :
      (k : Str) (q p : A → Bool) (xs : List A)
      → ((x : A) → p x ≡ true → same (key x) k ≡ true)
      → any_where (λ x. same (key x) k) xs ≡ false
      → any_where q xs ≡ true
      → any_where (λ x. q x && not (p x)) xs ≡ true
  absent_others k q p [] s h t = t
  absent_others k q p (x ∷ xs) s h t = elim (Bool-cases (p x)) [
    | inl e ↦ absurd (ground (arith, s x e))
    | inr e ↦ elim (Bool-cases (q x)) [
      | inl e' ↦ ground arith
      | inr e' ↦ ground (arith, absent_others k q p xs s)
    ]
  ]

  -- With a primary key only one row has the key of a row that was found.
  pub any_where-others :
      (k : Str) (q p : A → Bool) (xs : List A) (row : A)
      → Keyed xs
      → ((x : A) → p x ≡ true → same (key x) k ≡ true)
      → first_where p xs ≡ some row
      → q row ≡ false
      → any_where q xs ≡ true
      → any_where (λ x. q x && not (p x)) xs ≡ true
  any_where-others k q p [] row u s h n t = absurd (ground arith)
  any_where-others k q p (x ∷ xs) row u s h n t = elim (Bool-cases (p x)) [
    | inl e ↦
        let same_key : key x ≡ k = same→eq (key x) k (s x e) in
        let none_later = subst (λ j. any_where (λ y. same (key y) j) xs ≡ false) same_key u.0 in
        let same_row : x ≡ row = ground arith in
        let not_q : q x ≡ false = rw same_row n in
        let later = absent_others k q p xs s none_later (ground arith) in ground (arith, later)
    | inr f ↦ elim (Bool-cases (q x)) [
      | inl e ↦ ground arith
      | inr e ↦
          let later = any_where-others k q p xs row u.1 s (ground arith) n (ground arith) in
          ground (arith, later)
    ]
  ]

  any_key-update :
      (p : A → Bool) (f : A → A) (k : Str) (xs : List A)
      → ((x : A) → key (f x) ≡ key x)
      → any_where (λ y. same (key y) k) (update_where p f xs) ≡ any_where (λ y. same (key y) k) xs
  any_key-update p f k [] s = refl
  any_key-update p f k (x ∷ xs) s =
      let kept : key (if p x then f x else x) ≡ key x =
        if_either (λ y. key y ≡ key x) (p x) (s x) refl in
      rw (kept, any_key-update p f k xs s)

  -- An update that leaves the key alone.
  pub Keyed-update :
      (p : A → Bool) (f : A → A) (xs : List A)
      → ((x : A) → key (f x) ≡ key x)
      → Keyed xs
      → Keyed (update_where p f xs)
  Keyed-update p f [] s u = tt
  Keyed-update p f (x ∷ xs) s u =
      let kept : key (if p x then f x else x) ≡ key x =
        if_either (λ y. key y ≡ key x) (p x) (s x) refl in
      (rw (kept, any_key-update p f (key x) xs s) u.0, Keyed-update p f xs s u.1)

  -- A key and a condition find the row that the key finds.
  pub first_where-key :
      (k : Str) (c : A → Bool) (xs : List A) (row : A)
      → Keyed xs
      → first_where (λ x. same (key x) k && c x) xs ≡ some row
      → first_where (λ x. same (key x) k) xs ≡ some row
  first_where-key k c [] row u h = absurd (ground arith)
  first_where-key k c (x ∷ xs) row u h = elim (Bool-cases (same (key x) k)) [
    | inr f ↦ ground (arith, first_where-key k c xs row u.1)
    | inl e ↦ elim (Bool-cases (c x)) [
      | inl e' ↦ ground arith
      | inr f ↦
          let p = λ (y : A). same (key y) k && c y in
          let h' : first_where p xs ≡ some row = ground arith in
          let t = first_where-passes p xs row h' in
          let there =
            any_where-first_where p (λ y. same (key y) k) xs row h' (and-eq-true _ _ t).0 in
          let same_key : key x ≡ k = same→eq (key x) k e in
          let none_later = subst (λ j. any_where (λ y. same (key y) j) xs ≡ false) same_key u.0 in
          absurd (ground (arith, there, none_later))
    ]
  ]

  key_absent-append :
      (k : Str) (x : A) (xs : List A)
      → any_where (λ y. same (key y) k) xs ≡ false
      → same (key x) k ≡ false
      → any_where (λ y. same (key y) k) (xs ++ x ∷ []) ≡ false
  key_absent-append k x [] h n = ground arith
  key_absent-append k x (y ∷ ys) h n = ground (arith, key_absent-append k x ys)

  -- A new row with a key that no other has.
  pub Keyed-append :
      (x : A) (xs : List A)
      → any_where (λ y. same (key y) (key x)) xs ≡ false
      → Keyed xs
      → Keyed (xs ++ x ∷ [])
  Keyed-append x [] h u = (refl, tt)
  Keyed-append x (y ∷ ys) h u = (
    key_absent-append (key y) x ys u.0
        (ground (arith, same_iff (key y) (key x), same_iff (key x) (key y))),
    Keyed-append x ys (ground arith) u.1,
  )

-- A transaction that fails leaves the state as it was.
pub transaction-rolled_back :
    {W A : Type 0} (m : Act W A) (w : W) (e : Err)
    → (transaction m w).0 ≡ err e
    → (transaction m w).1 ≡ w
transaction-rolled_back m w e h = elim (Result-cases (m w).0) [
  | inl (a, s) ↦ absurd (ground arith)
  | inr (x, s) ↦ rw s refl
]
