-- ===== src/Sql.antt =====
-- What the stores of server/postgres share: tables as lists of rows, the statements on them, and
-- transactions (`withSystemTx` and `WithTenantTx` of postgres/pool.go over `pgx.BeginFunc`): an error
-- rolls back. Row visibility under the policies of the tenants is not modelled.
pub mod Rows
pub mod Trimmed
use clinks.Prelude.{
  ◌==◌, ◌&&◌, ℕ, suc, Bool, List, [], ◌∷◌, Option, none, some, if◌then◌else◌, map, ◌||◌, false,
}
use clinks.Text.{Str, is_empty, rune_count}
use clinks.Text.Utf8.{between}
use clinks.Errors.{Err, Result, ok, err}
use clinks.Exec.{Act}

module _ {A : Type 0} where
  -- `UPDATE … SET f WHERE p`.
  abbrev pub update_where : (A → Bool) → (A → A) → List A → List A
  update_where p f xs = map (λ x. if p x then f x else x) xs

  -- `SELECT … WHERE p`, read by `QueryRow`.
  abbrev pub first_where : (A → Bool) → List A → Option A
  first_where p [] = none
  first_where p (x ∷ xs) = let later = first_where p xs in if p x then some x else later

  -- `EXISTS`, or a count that is not 0.
  abbrev pub any_where : (A → Bool) → List A → Bool
  any_where p [] = false
  any_where p (x ∷ xs) = p x || any_where p xs

  -- The number of rows of `DELETE … WHERE p`, and the rows it leaves.
  abbrev pub count_where : (A → Bool) → List A → ℕ
  count_where p [] = 0
  count_where p (x ∷ xs) = let later = count_where p xs in if p x then suc later else later

  abbrev pub delete_where : (A → Bool) → List A → List A
  delete_where p [] = []
  delete_where p (x ∷ xs) = let later = delete_where p xs in if p x then later else x ∷ later

  -- What `Scan` gives: the row, or the error that stands for `pgx.ErrNoRows`.
  abbrev pub row_or : Option A → Err → Result A
  row_or none e = err e
  row_or (some a) e = ok a

abbrev finish : {W A : Type 0} → W → Result A × W → Result A × W
finish before (ok a, w) = (ok a, w)
finish before (err e, w) = (err e, before)

abbrev pub transaction : {W A : Type 0} → Act W A → Act W A
transaction m w = finish w (m w)

-- `btrim(text)`: spaces at both ends.
unfoldable pub drop_spaces : Str → Str
drop_spaces [] = []
drop_spaces (b ∷ bs) = let rest = drop_spaces bs in if b == 32 then rest else b ∷ bs

unfoldable pub drop_spaces_end : Str → Str
drop_spaces_end [] = []
drop_spaces_end (b ∷ bs) =
    let rest = drop_spaces_end bs in if b == 32 && is_empty rest then [] else b ∷ rest

unfoldable pub btrim : Str → Str
unfolding drop_spaces drop_spaces_end
btrim s = drop_spaces (drop_spaces_end s)

-- `char_length(s) BETWEEN lo AND hi` of a text in UTF-8.
unfoldable pub char_length_between : ℕ → ℕ → Str → Bool
char_length_between lo hi s = between lo hi (rune_count s)
