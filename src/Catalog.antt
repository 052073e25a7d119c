-- ===== src/Catalog.antt =====
-- Translations by key: the reference that the merges of translations.go and
-- localization/product_catalog.go are measured by, and the store and services over it.
pub mod ByKey
pub mod Bundle
pub mod Merge
pub mod Product
pub mod Store
pub mod Languages
pub mod Translator
pub mod Admin
pub mod Tests
