-- ===== src/Catalog/Store/Shown.antt =====
-- The product catalog of localization/product_catalog.go over the store of postgres/localization.go.
use clinks.Prelude.{◌≡◌, ◌∙◌, ℕ, subst, List, Option, none, some, arith}
use clinks.Text.{Str}
use clinks.Errors.{Result, ok, ok-injective}
use clinks.Localization.{scope_shared}
use clinks.Domain.{Translation}
use clinks.Catalog.ByKey.{lookup, value_of, DistinctKeys}
use clinks.Catalog.Product.{ProductCatalog, first_message, message, load}
use clinks.Catalog.Product.Agreement.{translation_message-eq-lookup}
use clinks.Catalog.Store.{CatalogTables, upsert_translation_override, translations, merged}
use clinks.Catalog.Languages.{override_store}
use clinks.Catalog.Store.Selected.{PrimaryKey, merged-DistinctKeys}
use clinks.Catalog.Store.Saved.{read_back, upsert-translations}

-- The product catalog over a store.
abbrev pub over_store : List Translation → Str → ProductCatalog CatalogTables
over_store entries default_locale = record {
  overrides = override_store;
  entries = entries;
  default_locale = default_locale;
}

first_message-some :
    (o : Option Str) (p : Option Str) (s : Str) → o ≡ some s → first_message o p ≡ ok s
first_message-some none p s h = absurd (ground arith)
first_message-some (some m) p s h = ground arith

value-read_back :
    (o : Option Translation) (s : Str) (n : ℕ) → read_back o ≡ some (s, n) → value_of o ≡ some s
value-read_back none s n h = absurd (ground arith)
value-read_back (some t) s n h = ground arith

-- After a shared override was saved, `Message` of the product catalog answers its value for its locale and
-- key, whatever the product itself says, where the primary key holds.
pub upsert-message :
    (entries : List Translation) (default_locale : Str) (t : Translation) (actor_id : Str)
    (event_id : Result Str) (db : CatalogTables) (t' : Translation)
    → PrimaryKey db.overrides
    → t.application_scope ≡ scope_shared
    → (upsert_translation_override t actor_id event_id db).0 ≡ ok t'
    → (message
        (over_store entries default_locale)
        t.locale
        t.key
        (upsert_translation_override t actor_id event_id db).1).0
      ≡ ok t.value
unfolding message translations override_store
upsert-message entries default_locale t actor_id event_id db t' key shared h =
    let after = (upsert_translation_override t actor_id event_id db).1.overrides in
    let read = upsert-translations t actor_id event_id db t' key h in
    let found : value_of (lookup t.key (merged t.locale scope_shared after)) ≡ some t.value =
      value-read_back (lookup t.key (merged t.locale scope_shared after)) t.value t'.revision (
        subst
          (λ s. read_back (lookup t.key (merged t.locale s after)) ≡ some (t.value, t'.revision))
          shared read) in
    first_message-some _ _ t.value
      (translation_message-eq-lookup (merged t.locale scope_shared after) t.key ∙ found)

-- The store answers no key twice, as the lookup of `Message` asks.
pub store-DistinctKeys :
    (entries : List Translation) (default_locale locale scope : Str) (db : CatalogTables)
    (found : List Translation)
    → (load (over_store entries default_locale) locale scope db).0 ≡ ok found
    → DistinctKeys found
unfolding override_store translations
store-DistinctKeys entries default_locale locale scope db found h =
    subst DistinctKeys (ok-injective h) (merged-DistinctKeys locale scope db.overrides)
