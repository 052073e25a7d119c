-- ===== src/Catalog/Store.antt =====
-- postgres/localization.go: the overrides of translations in the database, less their pages. The tables are lists of rows in the order of insertion; keys are ordered by their bytes.
-- What `uuid.NewV7` answers for the audit event is an argument of each write.
pub mod Order
pub mod Selected
pub mod Saved
pub mod Shown
pub mod Default
use clinks.Prelude.{
  ℕ, ◌+◌, ◌==◌, Bool, true, false, ◌&&◌, ◌||◌, not, List, [], ◌∷◌, ◌++◌, Option, none, some,
  if◌then◌else◌, length, ltb,
}
use clinks.Text.{Str, str, same, precedes, rune_count}
use clinks.Text.Utf8.{between}
use clinks.Errors.{conflict, domain, Err, plain, wrap, Result, ok, err}
use clinks.Exec.{Act, require_that, pure, lift, ◌>>=◌, ◌>>◌}
use clinks.Localization.{scope_shared, scope_is_valid}
use clinks.Domain.{Language, Translation}
use clinks.Sql.{
  char_length_between, update_where, any_where, count_where, delete_where, transaction,
}
use clinks.Tables.{Tables, audit}
use clinks.Catalog.ByKey.{has_key, put_all, order_by, sort_by_key}
use clinks.Catalog.Product.{OverrideStore}

-- `languages` and `translation_overrides`, beside the other tables.
pub record CatalogTables : Type 0 where
  pub languages : List Language
  pub overrides : List Translation
  pub others : Tables

abbrev pub in_others : {A : Type 0} → Act Tables A → Act CatalogTables A
in_others m db = let (r, others) = m db.others in (r, record db { others = others })

abbrev pub value_fits : Str → Bool
value_fits value = not (ltb 16384 (length value))

abbrev pub check_violation : Str → Err
check_violation what = wrap what (plain (str "check constraint"))

abbrev pub has_code : Str → Language → Bool
has_code code language = same language.code code

abbrev pub is_override : Str → Str → Str → Translation → Bool
is_override locale scope key t =
    same t.locale locale && same t.application_scope scope && same t.key key

abbrev pub override_at : Translation → Translation → Bool
override_at translation t =
    is_override translation.locale translation.application_scope translation.key t
    && t.revision == translation.revision

abbrev pub new_override : ℕ → Translation → Translation
new_override now translation = record translation {
  revision = 1;
  created_at = now;
  updated_at = now;
}

abbrev key_fits : Str → Bool
key_fits key = char_length_between 1 255 key

abbrev insert_override : Translation → Act CatalogTables Translation
insert_override t db =
    if not (scope_is_valid t.application_scope && key_fits t.key && value_fits t.value)
    then (err (check_violation (str "upsert translation override")), db)
    else if any_where (is_override t.locale t.application_scope t.key) db.overrides
        || not (any_where (has_code t.locale) db.languages)
    then (err (domain conflict), db)
    else (
      ok (record t { revision = 1 }),
      record db { overrides = db.overrides ++ new_override db.others.now t ∷ [] },
    )

abbrev pub changed_override : ℕ → Translation → Translation → Translation
changed_override now translation t = record t {
  value = translation.value;
  revision = t.revision + 1;
  updated_at = now;
}

abbrev update_override : Translation → Act CatalogTables Translation
update_override t db =
    if not (any_where (override_at t) db.overrides)
    then (err (domain conflict), db)
    else if not (value_fits t.value)
    then (err (check_violation (str "upsert translation override")), db)
    else (
      ok (record t { revision = t.revision + 1 }),
      record db {
        overrides = update_where (override_at t) (changed_override db.others.now t) db.overrides;
      },
    )

abbrev pub write_override : Translation → Act CatalogTables Translation
write_override translation =
    if translation.revision == 0 then insert_override translation else update_override translation

-- The statements of `UpsertTranslationOverride`.
abbrev pub saving_override : Translation → Str → Result Str → Act CatalogTables Translation
saving_override translation actor_id event_id = do
  translation' ← write_override translation
  in_others (
      audit event_id (some actor_id) none (str "localization.translation_override_saved")
        translation.key)
  pure translation'

unfoldable pub upsert_translation_override :
    Translation → Str → Result Str → Act CatalogTables Translation
upsert_translation_override translation actor_id event_id =
    transaction (saving_override translation actor_id event_id)

-- `DELETE … WHERE` and the rows it affected.
abbrev delete_override : Translation → Act CatalogTables ℕ
delete_override t db = (
  ok (count_where (override_at t) db.overrides),
  record db { overrides = delete_where (override_at t) db.overrides },
)

unfoldable pub delete_translation_override :
    Translation → Str → Result Str → Act CatalogTables (Unit {0})
delete_translation_override translation actor_id event_id = transaction (do
  affected ← delete_override translation
  require_that (affected == 1) conflict
  in_others (
      audit event_id (some actor_id) none (str "localization.translation_override_deleted")
        translation.key))

-- The order of the query in `Translations`: by key, the shared entry first.
abbrev pub rank : Translation → ℕ
rank t = if same t.application_scope scope_shared then 0 else 1

abbrev pub override_before : Translation → Translation → Bool
override_before a b = precedes a.key b.key || same a.key b.key && ltb (rank a) (rank b)

abbrev pub wanted : Str → Str → Translation → Bool
wanted locale scope t =
    same t.locale locale
    && (same t.application_scope scope || same t.application_scope scope_shared)

-- The columns that are read; the others stay zero.
abbrev pub scanned : Translation → Translation
scanned t = record t { created_at = 0; updated_at = 0 }

unfoldable pub selected : Str → Str → List Translation → List Translation
selected locale scope [] = []
selected locale scope (t ∷ ts) =
    let rest = selected locale scope ts in if wanted locale scope t then scanned t ∷ rest else rest

unfoldable pub merged : Str → Str → List Translation → List Translation
unfolding selected order_by put_all sort_by_key
merged locale scope overrides =
    sort_by_key (put_all (order_by override_before (selected locale scope overrides)) [])

unfoldable pub translations : Str → Str → Act CatalogTables (List Translation)
unfolding merged
translations locale scope db = (ok (merged locale scope db.overrides), db)
