-- ===== src/Catalog/Store/Default.antt =====
-- The default language under the edits of localization_admin.go.
use clinks.Prelude.{
  ◌≡◌, refl, ◌∙◌, ◌==◌, inl, inr, Bool, true, false, ◌&&◌, ◌||◌, not, List, [], ◌∷◌, ◌++◌,
  if◌then◌else◌, Bool-cases, arith,
}
use clinks.Text.{Str, same, is_empty, same_iff}
use clinks.Errors.{Result, ok, err, Result-cases}
use clinks.Domain.{Language}
use clinks.Sql.{any_where, update_where}
use clinks.Sql.Rows.{transaction-rolled_back}
use clinks.Validation.{valid_uuid}
use clinks.Localization.{locale_is_valid}
use clinks.Catalog.Admin.{LocalizationAdmin, save_language, trimmed, with_default}
use clinks.Catalog.Store.{CatalogTables, has_code}
use clinks.Catalog.Languages.{
  at_revision, new_language, changed_language, saving_language, upsert_language,
}

abbrev inactive : Str → Language → Bool
inactive d l = has_code d l && not l.is_active

abbrev stray : Str → Language → Bool
stray d l = l.is_default && not (has_code d l)

-- The default language is active where it is in the table, and no other row is marked as the default.
pub record DefaultKept (d : Str) (languages : List Language) : Type 0 where
  pub active : any_where (inactive d) languages ≡ false
  pub only : any_where (stray d) languages ≡ false

any_where-added :
    (p : Language → Bool) (l : Language) (rows : List Language)
    → any_where p (rows ++ l ∷ []) ≡ (any_where p rows || p l)
any_where-added p l [] = ground arith
any_where-added p l (x ∷ xs) = ground (arith, any_where-added p l xs)

-- An update that makes no row pass a test that none passed.
any_where-update_absent :
    (p q : Language → Bool) (f : Language → Language) (rows : List Language)
    → ((x : Language) → q x ≡ true → p x ≡ false → p (f x) ≡ false)
    → any_where p rows ≡ false
    → any_where p (update_where q f rows) ≡ false
any_where-update_absent p q f [] s h = refl
any_where-update_absent p q f (x ∷ xs) s h = elim (Bool-cases (q x)) [
  | inl e ↦ rw (e, s x e (ground arith)) (any_where-update_absent p q f xs s (ground arith))
  | inr n ↦ ground (arith, any_where-update_absent p q f xs s)
]

upsert-eq-ok :
    (l : Language) (actor_id : Str) (event_id : Result Str) (db : CatalogTables) (l' : Language)
    → (upsert_language l actor_id event_id db).0 ≡ ok l'
    → (upsert_language l actor_id event_id db).1.languages ≡ (
        if l.revision == 0
        then db.languages ++ new_language db.others.now l ∷ []
        else update_where
            (at_revision l.revision l.code)
            (changed_language db.others.now l)
            db.languages)
unfolding upsert_language
upsert-eq-ok l actor_id (err e) db l' h = absurd (ground arith)
upsert-eq-ok l actor_id (ok id) db l' h = ground arith

rows-DefaultKept :
    (d : Str) (l : Language) (actor_id : Str) (event_id : Result Str) (db : CatalogTables)
    (l' : Language)
    → (not (same l.code d) || l.is_active) ≡ true
    → l.is_default ≡ same l.code d
    → DefaultKept d db.languages
    → (upsert_language l actor_id event_id db).0 ≡ ok l'
    → DefaultKept d (upsert_language l actor_id event_id db).1.languages
rows-DefaultKept d l actor_id event_id db l' a m kept e =
    let now = db.others.now in
    let rows = db.languages in
    let q = at_revision l.revision l.code in
    let f = changed_language now l in
    rw (upsert-eq-ok l actor_id event_id db l' e) (elim (Bool-cases (l.revision == 0)) [
      | inl z ↦ rw z (record {
        active =
            any_where-added (inactive d) (new_language now l) rows ∙ ground (arith, kept.active);
        only = any_where-added (stray d) (new_language now l) rows ∙ ground (arith, kept.only);
      })
      | inr n ↦ rw n (record {
        active =
            any_where-update_absent (inactive d) q f rows
              (λ x s h.
                ground (arith, same_iff x.code l.code, same_iff x.code d, same_iff l.code d))
              kept.active;
        only = any_where-update_absent (stray d) q f rows (λ x s h. h) kept.only;
      })
    ])

upsert-DefaultKept :
    (d : Str) (l : Language) (actor_id : Str) (event_id : Result Str) (db : CatalogTables)
    → (not (same l.code d) || l.is_active) ≡ true
    → l.is_default ≡ same l.code d
    → DefaultKept d db.languages
    → DefaultKept d (upsert_language l actor_id event_id db).1.languages
unfolding upsert_language
upsert-DefaultKept d l actor_id event_id db a m kept =
    elim (Result-cases (upsert_language l actor_id event_id db).0) [
      | inr (x, e) ↦ rw (transaction-rolled_back (saving_language l actor_id event_id) db x e) kept
      | inl (l', e) ↦ rows-DefaultKept d l actor_id event_id db l' a m kept e
    ]

with_default_lem :
    (d : Str) (l : Language)
    → (not (same l.code d) || l.is_active) ≡ true
    → ((not (same (with_default d l).code d) || (with_default d l).is_active) ≡ true)
      × ((with_default d l).is_default ≡ same (with_default d l).code d)
with_default_lem d l a = elim (Bool-cases (same l.code d)) [
  | inl e ↦ (rw e (ground arith), rw (e, e) refl)
  | inr n ↦ (rw (n, n) refl, rw (n, n) refl)
]

-- Where the service writes to the store and its default language is `d`, no save by an administrator,
-- whatever it returns, deactivates that language or marks another as the default.
pub save_language-DefaultKept :
    (d : Str) (administration : LocalizationAdmin CatalogTables) (event_id : Result Str)
    (language : Language) (actor_id : Str) (db : CatalogTables)
    → ((w : CatalogTables) → administration.default_locale w ≡ (ok d, w))
    → ((l : Language) (w : CatalogTables)
        → administration.editor.upsert_language l actor_id w
          ≡ upsert_language l actor_id event_id w)
    → DefaultKept d db.languages
    → DefaultKept d (save_language administration language actor_id db).1.languages
unfolding save_language
save_language-DefaultKept d administration event_id language actor_id db default_is writes kept =
    let l = trimmed administration language in
    elim (Bool-cases
      (not (not (locale_is_valid l.code) || is_empty l.name || not (valid_uuid actor_id)))) [
        | inr n ↦ rw n kept
        | inl v ↦ elim (Bool-cases (not (same l.code d) || l.is_active)) [
          | inr n ↦ rw (v, default_is db) (rw n kept)
          | inl a ↦
              rw (v, default_is db)
                (rw (a, writes (with_default d l) db)
                  (upsert-DefaultKept d (with_default d l) actor_id event_id db
                    (with_default_lem d l a).0 (with_default_lem d l a).1 kept))
        ]
      ]
