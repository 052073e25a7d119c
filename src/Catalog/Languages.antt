-- ===== src/Catalog/Languages.antt =====
-- postgres/localization.go: the languages in the database, less their pages, and the store as the
-- product catalog sees it.
use clinks.Prelude.{
  ℕ, ◌+◌, ◌==◌, Bool, true, false, ◌&&◌, ◌||◌, not, List, [], ◌∷◌, ◌++◌, none, some, if◌then◌else◌,
}
use clinks.Text.{Str, str, same, precedes}
use clinks.Text.Utf8.{between}
use clinks.Errors.{conflict, domain, Result, ok, err}
use clinks.Exec.{Act, pure, ◌>>=◌, ◌>>◌}
use clinks.Domain.{Language}
use clinks.Sql.{char_length_between, update_where, any_where, transaction}
use clinks.Tables.{audit}
use clinks.Catalog.Product.{OverrideStore}
use clinks.Catalog.Store.{CatalogTables, in_others, has_code, check_violation, translations}

abbrev pub lower_letter : ℕ → Bool
lower_letter b = between 97 122 b

abbrev pub upper_letter : ℕ → Bool
upper_letter b = between 65 90 b

-- The constraint `languages_code_format`.
unfoldable pub code_format : Str → Bool
code_format (a ∷ b ∷ []) = lower_letter a && lower_letter b
code_format (a ∷ b ∷ dash ∷ c ∷ d ∷ []) =
    lower_letter a && lower_letter b && dash == 45 && upper_letter c && upper_letter d
code_format _ = false

abbrev pub name_fits : Str → Bool
name_fits name = char_length_between 2 80 name

abbrev pub at_revision : ℕ → Str → Language → Bool
at_revision revision code language = has_code code language && language.revision == revision

-- The row of `INSERT INTO languages`.
abbrev pub new_language : ℕ → Language → Language
new_language now language = record language { revision = 1; created_at = now; updated_at = now }

abbrev insert_language : Language → Act CatalogTables Language
unfolding code_format
insert_language language db =
    if not (code_format language.code && name_fits language.name)
    then (err (check_violation (str "upsert language")), db)
    else if any_where (has_code language.code) db.languages
        || language.is_default && any_where (λ (l : Language). l.is_default) db.languages
    then (err (domain conflict), db)
    else (
      ok (record language { revision = 1 }),
      record db { languages = db.languages ++ new_language db.others.now language ∷ [] },
    )

-- `UPDATE languages` at one row.
abbrev pub changed_language : ℕ → Language → Language → Language
changed_language now language l = record l {
  name = language.name;
  is_active = language.is_active;
  revision = l.revision + 1;
  updated_at = now;
}

abbrev update_language : Language → Act CatalogTables Language
update_language language db =
    if not (any_where (at_revision language.revision language.code) db.languages)
    then (err (domain conflict), db)
    else if not (name_fits language.name)
    then (err (check_violation (str "upsert language")), db)
    else (
      ok (record language { revision = language.revision + 1 }),
      record db {
        languages =
            update_where (at_revision language.revision language.code)
              (changed_language db.others.now language) db.languages;
      },
    )

abbrev pub write_language : Language → Act CatalogTables Language
unfolding code_format
write_language language =
    if language.revision == 0 then insert_language language else update_language language

-- The statements of `UpsertLanguage`.
abbrev pub saving_language : Language → Str → Result Str → Act CatalogTables Language
unfolding code_format
saving_language language actor_id event_id = do
  language' ← write_language language
  in_others (audit event_id (some actor_id) none (str "localization.language_saved") language.code)
  pure language'

unfoldable pub upsert_language : Language → Str → Result Str → Act CatalogTables Language
unfolding code_format
upsert_language language actor_id event_id =
    transaction (saving_language language actor_id event_id)

-- `ORDER BY name, code`.
abbrev language_before : Language → Language → Bool
language_before a b = precedes a.name b.name || same a.name b.name && precedes a.code b.code

unfoldable pub insert_language_by_name : Language → List Language → List Language
insert_language_by_name l [] = l ∷ []
insert_language_by_name l (x ∷ xs) =
    if language_before l x then l ∷ x ∷ xs else x ∷ insert_language_by_name l xs

-- The rows of `languages`, all or the active ones.
unfoldable pub languages_by_name : Bool → List Language → List Language
unfolding insert_language_by_name
languages_by_name active_only [] = []
languages_by_name active_only (l ∷ ls) =
    let rest = languages_by_name active_only ls in
    if not active_only || l.is_active then insert_language_by_name l rest else rest

unfoldable pub languages : Bool → Act CatalogTables (List Language)
unfolding languages_by_name
languages active_only db = (ok (languages_by_name active_only db.languages), db)

-- The store as the product catalog sees it.
unfoldable pub override_store : OverrideStore CatalogTables
unfolding languages translations
override_store = record {
  active_languages = languages true;
  all_languages = languages false;
  translations = translations;
}
