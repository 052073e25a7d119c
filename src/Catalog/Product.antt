-- ===== src/Catalog/Product.antt =====
-- localization/product_catalog.go: the translations of the product with the overrides of the
-- administrators. The generated entries and their locale are parameters. A map is the list of its
-- entries, which are sorted before they leave.
pub mod Agreement
use clinks.Prelude.{Bool, ◌&&◌, ◌||◌, not, List, [], ◌∷◌, ◌++◌, Option, none, some, if◌then◌else◌}
use clinks.Text.{Str, str, same, is_empty}
use clinks.Errors.{Err, plain, wrap, Result, ok, err}
use clinks.Exec.{Act, pure, lift, ◌>>=◌}
use clinks.Localization.{scope_shared, locale_is_valid}
use clinks.Domain.{Language, Translation}
use clinks.Catalog.ByKey.{put_all, sort_by_key}

pub record OverrideStore (W : Type 0) : Type 0 where
  pub active_languages : Act W (List Language)
  pub all_languages : Act W (List Language)
  pub translations : Str → Str → Act W (List Translation)

-- `ProductCatalog`, with `productTranslationEntries` and `productDefaultLocale`.
pub record ProductCatalog (W : Type 0) : Type 0 where
  pub overrides : OverrideStore W
  pub entries : List Translation
  pub default_locale : Str

abbrev pub internal_error_message_key : Str
internal_error_message_key = str "error.internal"

abbrev pub translation_not_found : Err
translation_not_found = plain (str "translation not found")

abbrev pub in_scope : Str → Str → Translation → Bool
in_scope locale scope t = same t.locale locale && same t.application_scope scope

-- A loop with `continue`: the entries of a locale and a scope.
unfoldable pub entries_in : Str → Str → List Translation → List Translation
entries_in locale scope [] = []
entries_in locale scope (t ∷ ts) =
    let rest = entries_in locale scope ts in if in_scope locale scope t then t ∷ rest else rest

unfoldable pub product_translations : List Translation → Str → Str → List Translation
unfolding entries_in put_all
product_translations entries locale scope =
    let by_key = put_all (entries_in locale scope_shared entries) [] in
    sort_by_key (
      if not (same scope scope_shared)
      then put_all (entries_in locale scope entries) by_key
      else by_key)

-- The loop of `productMessage`, with the shared value so far.
unfoldable pub message_loop : Str → Str → Str → Str → List Translation → Option Str
message_loop locale scope key shared [] = if not (is_empty shared) then some shared else none
message_loop locale scope key shared (t ∷ ts) =
    let here = same t.locale locale && same t.key key in
    let shared' = if here && same t.application_scope scope_shared then t.value else shared in
    let rest = message_loop locale scope key shared' ts in
    if here && same t.application_scope scope then some t.value else rest

unfoldable pub product_message : List Translation → Str → Str → Str → Option Str
unfolding message_loop
product_message entries locale scope key = message_loop locale scope key [] entries

unfoldable pub translation_message : List Translation → Str → Option Str
translation_message [] key = none
translation_message (t ∷ ts) key =
    let rest = translation_message ts key in if same t.key key then some t.value else rest

unfoldable pub merge_overrides : List Translation → List Translation → List Translation
merge_overrides baseline overrides = sort_by_key (put_all overrides (put_all baseline []))

abbrev wrap_load : {A : Type 0} → Result A → Result A
wrap_load (ok a) = ok a
wrap_load (err e) = err (wrap (str "load translation overrides") e)

abbrev text_or : Option Str → Str → Str
text_or none s = s
text_or (some t) s = t

abbrev pub first_message : Option Str → Option Str → Result Str
first_message (some message) product = ok message
first_message none (some message) = ok message
first_message none none = err translation_not_found

module _ {W : Type 0} (catalog : ProductCatalog W) where
  unfoldable pub default_locale : Act W Str
  default_locale = pure catalog.default_locale

  unfoldable pub fallback_message : Str
  unfolding product_message
  fallback_message =
      text_or
        (product_message catalog.entries catalog.default_locale scope_shared
          internal_error_message_key)
        internal_error_message_key

  abbrev pub load : Str → Str → Act W (List Translation)
  load locale scope w =
      let (r, w') = catalog.overrides.translations locale scope w in (wrap_load r, w')

  unfoldable pub translations : Str → Str → Act W (List Translation)
  unfolding product_translations merge_overrides
  translations locale scope = do
    overrides ← load locale scope
    pure (merge_overrides (product_translations catalog.entries locale scope) overrides)

  -- The two lookups of `Message`.
  abbrev pub message_in : List Translation → Str → Str → Result Str
  message_in overrides locale key =
      first_message (translation_message overrides key)
        (product_message catalog.entries locale scope_shared key)

  unfoldable pub message : Str → Str → Act W Str
  unfolding translation_message product_message
  message locale key = do
    overrides ← load locale scope_shared
    lift (message_in overrides locale key)

-- `NewProductCatalog`, less its check for nil.
unfoldable pub new_product_catalog :
    {W : Type 0} → OverrideStore W → List Translation → Str → Result (ProductCatalog W)
unfolding product_message
new_product_catalog overrides entries locale =
    if not (locale_is_valid locale)
    then err (plain (str "invalid product default locale"))
    else elim (product_message entries locale scope_shared internal_error_message_key) [
      | none ↦ err (wrap (str "required fallback") translation_not_found)
      | some message ↦
          ok (record { overrides = overrides; entries = entries; default_locale = locale })
    ]
