-- ===== src/Catalog/Product/Agreement.antt =====
-- What is found under a key, by `Translations` and by `Message`.
use clinks.Prelude.{
  if_either, ◌≡◌, refl, ◌∙◌, sym, ap, inl, inr, false, List, [], ◌∷◌, Option, none, some,
  if◌then◌else◌, Bool-cases, arith, subst, not,
}
use clinks.Text.{Str, same, same→eq}
use clinks.Errors.{Result, ok, err, Result-cases}
use clinks.Localization.{scope_shared}
use clinks.Domain.{Translation}
use clinks.Sql.{any_where}
use clinks.Catalog.ByKey.{
  or_else, value_of, has_key, lookup, DistinctKeys, put_all, last_or, lookup-put_all,
  put_all-DistinctKeys, sort-DistinctKeys, lookup-sort,
}
use clinks.Catalog.Product.{
  ProductCatalog, entries_in, product_translations, message_loop, product_message,
  translation_message, merge_overrides, translations, first_message, message_in, message,
  translation_not_found, load,
}

lookup-absent :
    (k : Str) (ts : List Translation) → any_where (has_key k) ts ≡ false → lookup k ts ≡ none
lookup-absent k [] h = refl
lookup-absent k (t ∷ ts) h = ground (arith, lookup-absent k ts)

-- With distinct keys the last with a key is the first.
last_or-DistinctKeys :
    (k : Str) (ts : List Translation) (o : Option Translation)
    → DistinctKeys ts
    → last_or k ts o ≡ or_else (lookup k ts) o
unfolding last_or
last_or-DistinctKeys k [] o d = refl
last_or-DistinctKeys k (t ∷ ts) o d = elim (Bool-cases (same t.key k)) [
  | inl e ↦
      let absent : lookup k ts ≡ none =
        lookup-absent k ts
          (subst (λ j. any_where (has_key j) ts ≡ false) (same→eq t.key k e) d.0) in
      rw (e, last_or-DistinctKeys k ts (some t) d.1, absent) refl
  | inr n ↦ rw (n, last_or-DistinctKeys k ts o d.1) refl
]

pub translation_message-eq-lookup :
    (ts : List Translation) (k : Str) → translation_message ts k ≡ value_of (lookup k ts)
unfolding translation_message
translation_message-eq-lookup [] k = refl
translation_message-eq-lookup (t ∷ ts) k = ground (arith, translation_message-eq-lookup ts k)

message_loop-eq-lookup :
    (locale k : Str) (ts : List Translation)
    → message_loop locale scope_shared k [] ts
      ≡ value_of (lookup k (entries_in locale scope_shared ts))
unfolding message_loop entries_in
message_loop-eq-lookup locale k [] = refl
message_loop-eq-lookup locale k (t ∷ ts) = ground (arith, message_loop-eq-lookup locale k ts)

pub product_translations-DistinctKeys :
    (entries : List Translation) (locale scope : Str)
    → DistinctKeys (product_translations entries locale scope)
unfolding product_translations
product_translations-DistinctKeys entries locale scope =
    let shared = put_all-DistinctKeys (entries_in locale scope_shared entries) [] tt in
    sort-DistinctKeys _ (
      if_either DistinctKeys (not (same scope scope_shared))
        (put_all-DistinctKeys (entries_in locale scope entries) _ shared) shared)

-- Under a key the product has its last entry of the scope, or else its last shared entry.
lookup-product_translations :
    (k : Str) (entries : List Translation) (locale scope : Str)
    → lookup k (product_translations entries locale scope) ≡ (
        if not (same scope scope_shared)
        then last_or k
            (entries_in locale scope entries)
            (last_or k (entries_in locale scope_shared entries) none)
        else last_or k (entries_in locale scope_shared entries) none)
unfolding product_translations
lookup-product_translations k entries locale scope =
    let shared = entries_in locale scope_shared entries in
    let distinct = put_all-DistinctKeys shared [] tt in
    elim (Bool-cases (same scope scope_shared)) [
      | inl e ↦
          rw e (rw (lookup-sort k (put_all shared []) distinct, lookup-put_all k shared []) refl)
      | inr n ↦
          let own = entries_in locale scope entries in
          rw n (
            rw
              (
                lookup-sort k (put_all own (put_all shared []))
                    (put_all-DistinctKeys own (put_all shared []) distinct),
                lookup-put_all k own (put_all shared []),
                lookup-put_all k shared [],
              )
              refl)
    ]

-- Under a key the merge has the last override, or else the last of the product.
lookup-merge_overrides :
    (k : Str) (baseline overrides : List Translation)
    → lookup k (merge_overrides baseline overrides) ≡ last_or k overrides (last_or k baseline none)
unfolding merge_overrides
lookup-merge_overrides k baseline overrides =
    let distinct = put_all-DistinctKeys baseline [] tt in
    rw
      (
        lookup-sort k (put_all overrides (put_all baseline []))
            (put_all-DistinctKeys overrides (put_all baseline []) distinct),
        lookup-put_all k overrides (put_all baseline []),
        lookup-put_all k baseline [],
      )
      refl

-- What `Message` answers for a translation that was looked up.
abbrev pub message_of : Option Translation → Result Str
message_of none = err translation_not_found
message_of (some t) = ok t.value

-- The lookup of a key in a result of `Translations`.
abbrev pub looked_up : {W : Type 0} → Str → Result (List Translation) × W → Result Str × W
looked_up k (ok ts, w) = (message_of (lookup k ts), w)
looked_up k (err e, w) = (err e, w)

or_else-none : (o : Option Translation) → or_else o none ≡ o
or_else-none none = refl
or_else-none (some t) = refl

first_message_lem :
    (o p : Option Translation) → first_message (value_of o) (value_of p) ≡ message_of (or_else o p)
first_message_lem none none = refl
first_message_lem none (some t) = refl
first_message_lem (some t) p = refl

module _ {W : Type 0} (catalog : ProductCatalog W) (locale k : Str) where
  message_in-eq-lookup :
      (overrides : List Translation)
      → DistinctKeys overrides
      → DistinctKeys (entries_in locale scope_shared catalog.entries)
      → message_in catalog overrides locale k
        ≡ message_of (
            lookup k (
              merge_overrides (product_translations catalog.entries locale scope_shared) overrides))
  unfolding product_message same
  message_in-eq-lookup overrides d s =
      let entries = catalog.entries in
      let baseline = product_translations entries locale scope_shared in
      let merged : lookup k (merge_overrides baseline overrides)
          ≡ or_else (lookup k overrides) (lookup k (entries_in locale scope_shared entries)) =
        rw
          (
            lookup-merge_overrides k baseline overrides,
            last_or-DistinctKeys k overrides (last_or k baseline none) d,
            last_or-DistinctKeys k baseline none
                (product_translations-DistinctKeys entries locale scope_shared),
            lookup-product_translations k entries locale scope_shared,
            last_or-DistinctKeys k (entries_in locale scope_shared entries) none s,
          )
          (rw
            (
              or_else-none (lookup k (entries_in locale scope_shared entries)),
              or_else-none (lookup k (entries_in locale scope_shared entries)),
            )
            refl) in
      let product : product_message entries locale scope_shared k
          ≡ value_of (lookup k (entries_in locale scope_shared entries)) =
        message_loop-eq-lookup locale k entries in
      let first_eq : message_in catalog overrides locale k
          ≡ first_message (value_of (lookup k overrides))
              (value_of (lookup k (entries_in locale scope_shared entries))) =
        rw (translation_message-eq-lookup overrides k) (ap (first_message _) product) in
      first_eq
      ∙ first_message_lem (lookup k overrides) (lookup k (entries_in locale scope_shared entries))
      ∙ ap message_of (sym merged)

  -- Where no two overrides and no two shared entries of the locale have the same key, `Message` answers
  -- what `Translations` has under the key for the shared scope, or its error.
  pub message-eq-looked_up :
      (w : W)
      → ((overrides : List Translation)
          → (load catalog locale scope_shared w).0 ≡ ok overrides
          → DistinctKeys overrides)
      → DistinctKeys (entries_in locale scope_shared catalog.entries)
      → message catalog locale k w ≡ looked_up k (translations catalog locale scope_shared w)
  unfolding message translations
  message-eq-looked_up w d s = elim (Result-cases (load catalog locale scope_shared w).0) [
    | inl (overrides, e) ↦ rw (e, message_in-eq-lookup overrides (d overrides e) s) refl
    | inr (x, e) ↦ rw e refl
  ]
