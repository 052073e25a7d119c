-- ===== src/Domain/Texts.antt =====
-- Languages and translations.
use clinks.Prelude.{ℕ, Bool, List}
use clinks.Text.{Str}

pub record Language : Type 0 where
  pub code : Str
  pub name : Str
  pub is_default : Bool
  pub is_active : Bool
  pub revision : ℕ
  pub created_at : ℕ
  pub updated_at : ℕ

pub record Translation : Type 0 where
  pub locale : Str
  pub application_scope : Str
  pub key : Str
  pub value : Str
  pub revision : ℕ
  pub created_at : ℕ
  pub updated_at : ℕ

pub record TranslationBundle : Type 0 where
  pub locale : Str
  pub translations : List Translation
