-- ===== src/Catalog/Bundle.antt =====
-- translations.go: the bundle of translations of a locale, filled up from the default locale.
use clinks.Prelude.{
  ℕ, zero, suc, ◌+◌, Bool, List, [], ◌∷◌, ◌++◌, Option, none, some, if◌then◌else◌, length,
}
use clinks.Text.{Str, same, CaseTables}
use clinks.Errors.{validation}
use clinks.Exec.{Act, pure, require_that, ◌>>=◌, ◌>>◌}
use clinks.Localization.{new_locale, locale_is_valid, scope_is_valid}
use clinks.Domain.{Language, Translation, TranslationBundle}

-- `result[index] = override`.
abbrev pub set : List Translation → ℕ → Translation → List Translation
set [] i t = []
set (x ∷ xs) zero t = t ∷ xs
set (x ∷ xs) (suc i) t = x ∷ set xs i t

-- A `map[string]int`.
abbrev pub Index : Type 0
Index = Str → Option ℕ

abbrev pub record_at : Str → ℕ → Index → Index
record_at key i index k = if same key k then some i else index k

-- The loop that fills `indexByKey`, from an index on.
unfoldable pub index_from : ℕ → List Translation → Index → Index
index_from i [] index = index
index_from i (t ∷ ts) index = index_from (i + 1) ts (record_at t.key i index)

abbrev merge_one : Option ℕ → Translation → List Translation → Index → List Translation × Index
merge_one (some i) t result index = (set result i t, index)
merge_one none t result index = (result ++ t ∷ [], record_at t.key (length result) index)

-- The loop over the overrides.
unfoldable pub merge_from : List Translation → List Translation → Index → List Translation
merge_from [] result index = result
merge_from (t ∷ ts) result index =
    let (result', index') = merge_one (index t.key) t result index in merge_from ts result' index'

unfoldable pub merge_translations : List Translation → List Translation → List Translation
unfolding merge_from index_from
merge_translations fallback overrides =
    merge_from overrides fallback (index_from 0 fallback (λ k. none))

pub record LanguageCatalog (W : Type 0) : Type 0 where
  pub active_languages : Act W (List Language)

pub record TranslationCatalog (W : Type 0) : Type 0 where
  pub default_locale : Act W Str
  pub translations : Str → Str → Act W (List Translation)

pub record Translations (W : Type 0) : Type 0 where
  pub languages : LanguageCatalog W
  pub catalog : TranslationCatalog W
  pub tables : CaseTables

abbrev pub is_nil : List Translation → Bool
is_nil [] = Bool.true
is_nil (t ∷ ts) = Bool.false

-- The last two returns of `TranslationBundle`.
abbrev pub filled_up : Str → Str → List Translation → List Translation → TranslationBundle
filled_up locale default_locale translations fallback =
    if is_nil translations
    then record { locale = default_locale; translations = fallback }
    else record { locale = locale; translations = merge_translations fallback translations }

module _ {W : Type 0} (service : Translations W) where
  unfoldable pub active_languages : Act W (List Language)
  active_languages = service.languages.active_languages

  unfoldable pub filled_bundle : Str → Str → List Translation → Str → Act W TranslationBundle
  unfolding merge_translations
  filled_bundle locale scope translations default_locale = do
    fallback ← service.catalog.translations default_locale scope
    pure (filled_up locale default_locale translations fallback)

  -- `TranslationBundle` after the translations of the locale and the default locale were read.
  unfoldable pub bundle_for : Str → Str → List Translation → Str → Act W TranslationBundle
  unfolding filled_bundle
  bundle_for locale scope translations default_locale =
      if same locale default_locale
      then pure (record { locale = locale; translations = translations })
      else filled_bundle locale scope translations default_locale

  unfoldable pub translation_bundle : Str → Str → Act W TranslationBundle
  unfolding bundle_for
  translation_bundle raw_locale scope = do
    require_that (scope_is_valid scope) validation
    let locale = new_locale service.tables raw_locale
    require_that (locale_is_valid locale) validation
    translations ← service.catalog.translations locale scope
    default_locale ← service.catalog.default_locale
    bundle_for locale scope translations default_locale
