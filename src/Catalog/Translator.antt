-- ===== src/Catalog/Translator.antt =====
-- localization/translator.go: the public text of an error and of an audit event, with the product
-- catalog behind an interface. The check of NewTranslator for nil has no counterpart.
use clinks.Prelude.{
  ℕ, zero, suc, ◌==◌, Bool, true, false, ◌&&◌, not, [], ◌∷◌, ◌++◌, Option, none, some,
  if◌then◌else◌,
}
use clinks.Text.{Str, str, same, is_empty, trim_space}
use clinks.Errors.{ErrorKind, kind_text, kind_is_valid, Err, join, wrap, as_domain, Result, ok, err}
use clinks.Exec.{Act, pure, raise, attempt, ◌>>=◌}
use clinks.Domain.{AuditEvent}
use clinks.Catalog.Product.{internal_error_message_key}

-- `errorCatalog`.
pub record ErrorCatalog (W : Type 0) : Type 0 where
  pub default_locale : Act W Str
  pub message : Str → Str → Act W Str
  pub fallback_message : Str

abbrev error_message_prefix : Str
error_message_prefix = str "error."

abbrev audit_message_prefix : Str
audit_message_prefix = str "audit."

abbrev audit_target_placeholder : Str
audit_target_placeholder = str "{target}"

abbrev is_prefix : Str → Str → Bool
is_prefix [] s = true
is_prefix (a ∷ rest) [] = false
is_prefix (a ∷ rest) (b ∷ bs) = a == b && is_prefix rest bs

-- `strings.ReplaceAll` of the placeholder; `skip` bytes of an occurrence are left to pass over.
unfoldable pub replace_target : Str → ℕ → Str → Str
replace_target target skip [] = []
replace_target target (suc skip) (b ∷ bs) = replace_target target skip bs
replace_target target zero (b ∷ bs) =
    let here = is_prefix audit_target_placeholder (b ∷ bs) in
    let rest = replace_target target (if here then 7 else 0) bs in
    if here then target ++ rest else b ∷ rest

abbrev key_of : Option ErrorKind → Str
key_of none = internal_error_message_key
key_of (some k) =
    if not (kind_is_valid k)
    then internal_error_message_key
    else error_message_prefix ++ kind_text k

abbrev pub error_key : Err → Str
error_key e = key_of (as_domain e)

abbrev audit_fallback : AuditEvent → Str
audit_fallback event =
    if is_empty event.target then event.action else event.action ++ str ": " ++ event.target

abbrev fallback_result : Err → Result Str → Result Str
fallback_result e (ok fallback) = ok fallback
fallback_result e (err x) = err (join e (wrap (str "resolve fallback message") x))

abbrev described : AuditEvent → Result Str → Str
described event (ok message) = replace_target event.target 0 message
described event (err e) = audit_fallback event

module _ {W : Type 0} (catalog : ErrorCatalog W) where
  -- `resolveMessage` after the locale gave an error and the default locale was read.
  unfoldable pub in_default_locale : Str → Str → Err → Result Str → Act W Str
  in_default_locale locale key e (err x) = raise (join e (wrap (str "resolve default locale") x))
  in_default_locale locale key e (ok default_locale) =
      if same default_locale locale then raise e else λ w.
      let (r, w') = catalog.message default_locale key w in (fallback_result e r, w')

  abbrev resolved : Str → Str → Result Str → Act W Str
  unfolding in_default_locale
  resolved locale key (ok message) = pure message
  resolved locale key (err e) = do
    d ← attempt catalog.default_locale
    in_default_locale locale key e d

  unfoldable pub resolve_message : Str → Str → Act W Str
  unfolding in_default_locale
  resolve_message locale key = do r ← attempt (catalog.message locale key); resolved locale key r

  unfoldable pub audit_description : Str → AuditEvent → W → Str × W
  unfolding resolve_message replace_target
  audit_description locale event w =
      let (r, w') = resolve_message locale (audit_message_prefix ++ event.action) w in
      (described event r, w')

  abbrev shown : Result Str → Str
  shown (ok message) = message
  shown (err e) =
      let fallback = trim_space catalog.fallback_message in
      if not (is_empty fallback) then fallback else internal_error_message_key

  unfoldable pub error_message : Str → Option Err → W → Str × W
  unfolding resolve_message
  error_message locale none w = ([], w)
  error_message locale (some e) w =
      let (r, w') = resolve_message locale (error_key e) w in (shown r, w')
