-- ===== src/Catalog/Store/Saved.antt =====
-- What a write of an override leaves: the primary key, and the value that later reads answer.
use clinks.Prelude.{
  ℕ, ◌+◌, ◌==◌, ◌≡◌, refl, ◌∙◌, sym, inl, inr, Bool, true, false, ◌||◌, not, List, [], ◌∷◌, ◌++◌,
  Option, none, some, if◌then◌else◌, Bool-cases, arith,
}
use clinks.Text.{Str, same→eq, same_refl}
use clinks.Errors.{Result, ok, err}
use clinks.Localization.{scope_shared}
use clinks.Domain.{Translation}
use clinks.Sql.{any_where, update_where}
use clinks.Catalog.ByKey.{lookup}
use clinks.Catalog.Store.{
  CatalogTables, is_override, override_at, new_override, changed_override,
  upsert_translation_override, translations,
}
use clinks.Catalog.Store.Order.{last_where, Unique, last_where-absent}
use clinks.Catalog.Store.Selected.{PrimaryKey, scan_row, override_for, lookup-merged}

-- The rows after a successful write.
abbrev written : ℕ → Translation → List Translation → List Translation
written now t rows =
    if t.revision == 0
    then rows ++ new_override now t ∷ []
    else update_where (override_at t) (changed_override now t) rows

-- What a successful write had found.
abbrev writable : Translation → List Translation → Bool
writable t rows =
    if t.revision == 0
    then not (any_where (is_override t.locale t.application_scope t.key) rows)
    else any_where (override_at t) rows

upsert-written :
    (t : Translation) (actor_id : Str) (event_id : Result Str) (db : CatalogTables)
    (t' : Translation)
    → (upsert_translation_override t actor_id event_id db).0 ≡ ok t'
    → ((upsert_translation_override t actor_id event_id db).1.overrides
        ≡ written db.others.now t db.overrides)
      × (writable t db.overrides ≡ true)
      × (t'.revision ≡ t.revision + 1)
unfolding upsert_translation_override
upsert-written t actor_id (err e) db t' h = absurd (ground arith)
upsert-written t actor_id (ok id) db t' h = (ground arith, ground arith, ground arith)

any_where-added :
    (p : Translation → Bool) (t : Translation) (rows : List Translation)
    → any_where p (rows ++ t ∷ []) ≡ (any_where p rows || p t)
any_where-added p t [] = ground arith
any_where-added p t (x ∷ xs) = ground (arith, any_where-added p t xs)

Unique-append :
    (p : Translation → Bool) (t : Translation) (rows : List Translation)
    → (p t ≡ true → any_where p rows ≡ false)
    → Unique p rows
    → Unique p (rows ++ t ∷ [])
Unique-append p t [] h u = (λ e. refl, tt)
Unique-append p t (x ∷ xs) h u = (
  λ e. any_where-added p t xs ∙ ground (arith, u.0 e, h),
  Unique-append p t xs (λ e. ground (arith, h e)) u.1,
)

last_where-append :
    (p : Translation → Bool) (t : Translation) (rows : List Translation) (o : Option Translation)
    → p t ≡ true
    → last_where p (rows ++ t ∷ []) o ≡ some t
unfolding last_where
last_where-append p t [] o h = rw h refl
last_where-append p t (x ∷ xs) o h = last_where-append p t xs (if p x then some x else o) h

-- An update of rows that leaves a test on them as it was.
module _ (p q : Translation → Bool) (f : Translation → Translation)
    (kept : (x : Translation) → p (f x) ≡ p x) where
  any_where-update :
      (rows : List Translation) → any_where p (update_where q f rows) ≡ any_where p rows
  any_where-update [] = refl
  any_where-update (x ∷ xs) = elim (Bool-cases (q x)) [
    | inl e ↦ rw (e, kept x, any_where-update xs) refl
    | inr n ↦ rw (n, any_where-update xs) refl
  ]

  Unique-update : (rows : List Translation) → Unique p rows → Unique p (update_where q f rows)
  Unique-update [] u = tt
  Unique-update (x ∷ xs) u = elim (Bool-cases (q x)) [
    | inl e ↦ rw e (λ h. any_where-update xs ∙ u.0 (sym (kept x) ∙ h), Unique-update xs u.1)
    | inr n ↦ rw n (λ h. any_where-update xs ∙ u.0 h, Unique-update xs u.1)
  ]

  last_where-update :
      (rows : List Translation) (o : Option Translation)
      → ((x : Translation) → q x ≡ true → p x ≡ true)
      → Unique p rows
      → any_where q rows ≡ true
      → (row : Translation) × (q row ≡ true)
        × (last_where p (update_where q f rows) o ≡ some (f row))
  unfolding last_where
  last_where-update [] o inside u a = absurd (ground arith)
  last_where-update (x ∷ xs) o inside u a = elim (Bool-cases (q x)) [
    | inl e ↦
        let here : p x ≡ true = inside x e in
        let none_later = any_where-update xs ∙ u.0 here in
        (
          x,
          e,
          rw (e, kept x, here) (last_where-absent p (update_where q f xs) (some (f x)) none_later),
        )
    | inr n ↦
        let (row, found, eq) =
          last_where-update xs (if p x then some x else o) inside u.1 (ground arith) in
        (row, found, rw n eq)
  ]

abbrev key_test : Translation → Translation → Bool
key_test t = is_override t.locale t.application_scope t.key

same_key :
    (locale scope k : Str) (t : Translation) (rows : List Translation)
    → is_override locale scope k t ≡ true
    → any_where (key_test t) rows ≡ false
    → any_where (is_override locale scope k) rows ≡ false
same_key locale scope k t rows e h =
    let locale_eq : t.locale ≡ locale = same→eq t.locale locale (ground arith) in
    let scope_eq : t.application_scope ≡ scope = same→eq t.application_scope scope (ground arith) in
    let key_eq : t.key ≡ k = same→eq t.key k (ground arith) in
    rw (sym locale_eq, sym scope_eq, sym key_eq) h

written-PrimaryKey :
    (now : ℕ) (t : Translation) (rows : List Translation)
    → writable t rows ≡ true
    → PrimaryKey rows
    → PrimaryKey (written now t rows)
written-PrimaryKey now t rows w key locale scope k = elim (Bool-cases (t.revision == 0)) [
  | inl e ↦
      let free : any_where (key_test t) rows ≡ false = ground arith in
      rw e (
        Unique-append (is_override locale scope k) (new_override now t) rows
          (λ h. same_key locale scope k t rows h free) (key locale scope k))
  | inr n ↦ rw n (
      Unique-update (is_override locale scope k) (override_at t) (changed_override now t)
        (λ x. refl) rows (key locale scope k))
]

-- The value of a translation, with the revision that its next write has to name.
abbrev pub read_back : Option Translation → Option (Str × ℕ)
read_back none = none
read_back (some t) = some (t.value, t.revision)

written-override_for :
    (now : ℕ) (t : Translation) (rows : List Translation)
    → writable t rows ≡ true
    → PrimaryKey rows
    → read_back (scan_row (override_for t.locale t.application_scope t.key (written now t rows)))
      ≡ some (t.value, t.revision + 1)
written-override_for now t rows w key = elim (Bool-cases (t.revision == 0)) [
  | inl e ↦
      let o =
        last_where (is_override t.locale scope_shared t.key) (rows ++ new_override now t ∷ [])
          none in
      let itself : key_test t t ≡ true =
        rw (same_refl t.locale, same_refl t.application_scope, same_refl t.key) refl in
      rw e (rw (last_where-append (key_test t) (new_override now t) rows o itself) (ground arith))
  | inr n ↦
      let rows' = update_where (override_at t) (changed_override now t) rows in
      let o = last_where (is_override t.locale scope_shared t.key) rows' none in
      let (row, found, eq) =
        last_where-update (key_test t) (override_at t) (changed_override now t) (λ x. refl) rows o
          (λ x h. ground arith) (key t.locale t.application_scope t.key) (ground arith) in
      let revision_eq : row.revision ≡ t.revision = ground arith in rw n (rw (eq, revision_eq) refl)
]

-- What stands under a key in a result of `Translations`.
abbrev pub read_in : Str → Result (List Translation) → Option (Str × ℕ)
read_in k (ok ts) = read_back (lookup k ts)
read_in k (err e) = none

-- An override that was saved is what `Translations` answers for its locale and scope, with its value and
-- with the revision that the save returned, where the primary key holds.
pub upsert-translations :
    (t : Translation) (actor_id : Str) (event_id : Result Str) (db : CatalogTables)
    (t' : Translation)
    → PrimaryKey db.overrides
    → (upsert_translation_override t actor_id event_id db).0 ≡ ok t'
    → read_in t.key
        (translations t.locale t.application_scope
          (upsert_translation_override t actor_id event_id db).1).0
      ≡ some (t.value, t'.revision)
unfolding translations
upsert-translations t actor_id event_id db t' key h =
    let (eq, w, r) = upsert-written t actor_id event_id db t' h in
    rw (eq, r)
      (rw
        (lookup-merged t.locale t.application_scope t.key (written db.others.now t db.overrides)
          (written-PrimaryKey db.others.now t db.overrides w key))
        (written-override_for db.others.now t db.overrides w key))
