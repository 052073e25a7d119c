-- ===== src/Catalog/Tests.antt =====
-- A product with two texts, and a database with a language and an override.
use clinks.Prelude.{◌≡◌, refl, true, false, List, [], ◌∷◌, some}
use clinks.Text.{Str, str, same, ranges, rune_count, trim_space, CaseTables}
use clinks.Errors.{Result, ok, err, domain, plain, conflict, validation}
use clinks.Localization.{scope_shared, scope_admin, locale_is_valid, new_locale}
use clinks.Domain.{Language, Translation}
use clinks.Sql.{btrim, drop_spaces, drop_spaces_end, char_length_between}
use clinks.Tables.Sample.{sample, ada}
use clinks.Catalog.ByKey.{lookup, put_all}
use clinks.Catalog.Bundle.{merge_translations}
use clinks.Catalog.Merge.{merge_translations-eq-put_all}
use clinks.Catalog.Product.{entries_in, message}
use clinks.Catalog.Product.Agreement.{looked_up, message-eq-looked_up}
use clinks.Catalog.Store.{
  CatalogTables, merged, delete_translation_override, upsert_translation_override, translations,
}
use clinks.Catalog.Languages.{upsert_language, override_store}
use clinks.Catalog.Store.Selected.{PrimaryKey, override_for, scan_row, lookup-merged}
use clinks.Catalog.Store.Saved.{read_in, upsert-translations}
use clinks.Catalog.Store.Shown.{over_store, store-DistinctKeys, upsert-message}
use clinks.Catalog.Store.Default.{DefaultKept, save_language-DefaultKept}
use clinks.Pagination.{Page}
use clinks.Exec.{pure}
use clinks.Validation.{valid_uuid}
use clinks.Catalog.Translator.{ErrorCatalog, error_message}
use clinks.Catalog.Admin.{LocalizationAdmin, save_language}

abbrev entry : Str → Str → Str → Translation
entry scope key value = record {
  locale = str "en";
  application_scope = scope;
  key = key;
  value = value;
  revision = 0;
  created_at = 0;
  updated_at = 0;
}

abbrev product : List Translation
product = entry scope_shared (str "b") (str "two") ∷ entry scope_shared (str "a") (str "one") ∷ []

abbrev changed : List Translation
changed = entry scope_shared (str "c") (str "new") ∷ entry scope_shared (str "a") (str "uno") ∷ []

merge_translations-eq-put_all_example : merge_translations product changed ≡ put_all changed product
unfolding same
merge_translations-eq-put_all_example =
    merge_translations-eq-put_all product changed (refl, (refl, tt))

abbrev english : Language
english = record {
  code = str "en";
  name = str "English";
  is_default = true;
  is_active = true;
  revision = 1;
  created_at = 0;
  updated_at = 0;
}

abbrev stored : Translation
stored = record (entry scope_shared (str "a") (str "eins")) { revision = 1 }

abbrev database : CatalogTables
database = record { languages = english ∷ []; overrides = stored ∷ []; others = sample }

database-PrimaryKey : PrimaryKey database.overrides
database-PrimaryKey locale scope k = (λ e. refl, tt)

abbrev actor : Str
actor = ada.id

abbrev event : Result Str
event = ok (str "e1")

message-eq-looked_up_example :
    message (over_store product (str "en")) (str "en") (str "a") database
    ≡ looked_up (str "a") (
        clinks.Catalog.Product.translations
          (over_store product (str "en"))
          (str "en")
          scope_shared
          database)
unfolding same entries_in
message-eq-looked_up_example =
    message-eq-looked_up (over_store product (str "en")) (str "en") (str "a") database
      (store-DistinctKeys product (str "en") (str "en") scope_shared database) (refl, (refl, tt))

lookup-merged_example :
    lookup (str "a") (merged (str "en") scope_admin database.overrides)
    ≡ scan_row (override_for (str "en") scope_admin (str "a") database.overrides)
lookup-merged_example =
    lookup-merged (str "en") scope_admin (str "a") database.overrides database-PrimaryKey

-- The stored override with a new value, as a client that read it sends it.
abbrev edit : Translation
edit = record stored { value = str "yksi" }

edit_saved :
    (upsert_translation_override edit actor event database).0 ≡ ok (record edit { revision = 2 })
unfolding upsert_translation_override same
edit_saved = refl

-- The same edit again comes too late.
edit_late :
    (upsert_translation_override edit actor event
      (upsert_translation_override edit actor event database).1).0
    ≡ err (domain conflict)
unfolding upsert_translation_override same
edit_late = refl

upsert-translations_example :
    read_in
      (str "a")
      (translations
        (str "en")
        scope_shared
        (upsert_translation_override edit actor event database).1).0
    ≡ some (str "yksi", 2)
upsert-translations_example =
    upsert-translations edit actor event database (record edit { revision = 2 }) database-PrimaryKey
      edit_saved

upsert-message_example :
    (message
      (over_store product (str "en"))
      (str "en")
      (str "a")
      (upsert_translation_override edit actor event database).1).0
    ≡ ok (str "yksi")
upsert-message_example =
    upsert-message product (str "en") edit actor event database (record edit { revision = 2 })
      database-PrimaryKey refl edit_saved

-- No letter outside ASCII has another case.
abbrev tables : CaseTables
tables = record { lower_rune = λ c. c; upper_rune = λ c. c }

abbrev no_page : {A : Type 0} → Page A
no_page = record { items = []; next_cursor = [] }

abbrev administration : LocalizationAdmin CatalogTables
administration = record {
  default_locale = pure (str "en");
  editor = record {
    list_languages = λ filter. pure no_page;
    upsert_language = λ l actor_id. upsert_language l actor_id event;
    upsert_translation_override = λ t actor_id. upsert_translation_override t actor_id event;
    list_translation_overrides = λ filter. pure no_page;
    delete_translation_override = λ t actor_id. delete_translation_override t actor_id event;
  };
  tables = tables;
}

abbrev renamed : Language
renamed = record english { name = str " British English " }

abbrev switched_off : Language
switched_off = record english { is_active = false }

rename_saved :
    (save_language administration renamed actor database).0
    ≡ ok (record english { name = str "British English"; revision = 2 })
unfolding save_language upsert_language locale_is_valid new_locale trim_space same valid_uuid ranges
    rune_count btrim drop_spaces drop_spaces_end char_length_between
rename_saved = refl

switch_refused :
    save_language administration switched_off actor database ≡ (err (domain validation), database)
unfolding save_language locale_is_valid new_locale trim_space same valid_uuid ranges
switch_refused = refl

save_language-DefaultKept_example :
    DefaultKept (str "en") (save_language administration renamed actor database).1.languages
unfolding same
save_language-DefaultKept_example =
    save_language-DefaultKept (str "en") administration event renamed actor database (λ w. refl)
      (λ l w. refl) (record { active = refl; only = refl })

-- The audit text of a missing message, and an unknown error in the default locale.
abbrev texts : ErrorCatalog CatalogTables
texts = record {
  default_locale = pure (str "en");
  message = message (over_store product (str "en"));
  fallback_message = str " sorry ";
}

missing_shown :
    error_message texts (str "de") (some (plain (str "io"))) database ≡ (str "sorry", database)
unfolding error_message message translations override_store same trim_space
missing_shown = refl
