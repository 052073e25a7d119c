-- ===== src/Catalog/Admin.antt =====
-- localization_admin.go: the languages and the overrides as administrators edit them.
use clinks.Prelude.{◌==◌, true, false, ◌||◌, not, if◌then◌else◌}
use clinks.Text.{Str, same, is_empty, trim_space, CaseTables}
use clinks.Errors.{validation, fails}
use clinks.Exec.{Act, require_that, lift, ◌>>=◌, ◌>>◌}
use clinks.Validation.{valid_uuid, validate_translation}
use clinks.Localization.{new_locale, locale_is_valid, parse_application_scope}
use clinks.Domain.{Language, Translation}
use clinks.Pagination.{Page}
use clinks.Pagination.Filters.{
  LanguageFilter, TranslationFilter, normalized_language_filter, normalized_translation_filter,
}

pub record LocalizationEditor (W : Type 0) : Type 0 where
  pub list_languages : LanguageFilter → Act W (Page Language)
  pub upsert_language : Language → Str → Act W Language
  pub upsert_translation_override : Translation → Str → Act W Translation
  pub list_translation_overrides : TranslationFilter → Act W (Page Translation)
  pub delete_translation_override : Translation → Str → Act W (Unit {0})

pub record LocalizationAdmin (W : Type 0) : Type 0 where
  pub default_locale : Act W Str
  pub editor : LocalizationEditor W
  pub tables : CaseTables

-- The default of `SaveLanguage` is set by the catalog, not by the caller.
abbrev pub with_default : Str → Language → Language
with_default default_locale language =
    if same language.code default_locale
    then record language { is_default = true }
    else record language { is_default = false }

module _ {W : Type 0} (administration : LocalizationAdmin W) where
  unfoldable pub languages : LanguageFilter → Act W (Page Language)
  unfolding normalized_language_filter
  languages filter = do
    filter' ← lift (normalized_language_filter filter)
    administration.editor.list_languages filter'

  -- The language as `SaveLanguage` trims it.
  abbrev pub trimmed : Language → Language
  trimmed language = record language {
    code = new_locale administration.tables language.code;
    name = trim_space language.name;
  }

  unfoldable pub save_language : Language → Str → Act W Language
  save_language language actor_id = do
    let language' = trimmed language
    require_that
        (not (
          not (locale_is_valid language'.code)
          || is_empty language'.name
          || not (valid_uuid actor_id)))
        validation
    default_locale ← administration.default_locale
    require_that (not (same language'.code default_locale) || language'.is_active) validation
    administration.editor.upsert_language (with_default default_locale language') actor_id

  -- The translation as both writes normalise it.
  abbrev normalized : Str → Translation → Translation
  normalized scope translation = record translation {
    locale = new_locale administration.tables translation.locale;
    application_scope = scope;
    key = trim_space translation.key;
  }

  unfoldable pub save_translation_override : Translation → Str → Act W Translation
  unfolding parse_application_scope
  save_translation_override translation actor_id = do
    scope ← lift (parse_application_scope administration.tables translation.application_scope)
    let translation' = normalized scope translation
    require_that
        (not (
          not (locale_is_valid translation'.locale)
          || fails (validate_translation translation'.key translation'.value)
          || not (valid_uuid actor_id)))
        validation
    administration.editor.upsert_translation_override translation' actor_id

  unfoldable pub translation_overrides : TranslationFilter → Act W (Page Translation)
  unfolding normalized_translation_filter
  translation_overrides filter = do
    filter' ← lift (normalized_translation_filter filter)
    administration.editor.list_translation_overrides filter'

  unfoldable pub delete_translation_override : Translation → Str → Act W (Unit {0})
  unfolding parse_application_scope
  delete_translation_override translation actor_id = do
    scope ← lift (parse_application_scope administration.tables translation.application_scope)
    let translation' = normalized scope translation
    require_that
        (not (
          not (locale_is_valid translation'.locale)
          || is_empty translation'.key
          || translation'.revision == 0
          || not (valid_uuid actor_id)))
        validation
    administration.editor.delete_translation_override translation' actor_id
