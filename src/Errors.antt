-- ===== src/Errors.antt =====
-- Go errors: errors.go (`ErrorKind`, `*Error`), plain errors of other packages, `fmt.Errorf` with
-- `%w` and `errors.Join`, with the two ways in which the source looks into an error, and functions
-- that return a value or an error.
use clinks.Prelude.{
  ◌≡◌, refl, ◌⊎◌, inl, inr, Bool, true, false, ◌||◌, Option, none, some, ◌++◌, ◌∷◌,
}
use clinks.Text.{Str, str}

pub data ErrorKind : Type 0 where
  invalid_credentials unauthorized validation email_taken : ErrorKind
  tenant_not_found membership_not_found role_not_found user_not_found : ErrorKind
  conflict invitation_invalid invitation_expired invitation_used : ErrorKind
  invite_email_mismatch lease_lost rate_limited internal : ErrorKind
  -- a text that is none of the constants
  other_kind : Str → ErrorKind

-- The text of an error kind.
unfoldable pub kind_text : ErrorKind → Str
kind_text invalid_credentials = str "invalid_credentials"
kind_text unauthorized = str "unauthorized"
kind_text validation = str "validation"
kind_text email_taken = str "email_taken"
kind_text tenant_not_found = str "tenant_not_found"
kind_text membership_not_found = str "membership_not_found"
kind_text role_not_found = str "role_not_found"
kind_text user_not_found = str "user_not_found"
kind_text conflict = str "conflict"
kind_text invitation_invalid = str "invitation_invalid"
kind_text invitation_expired = str "invitation_expired"
kind_text invitation_used = str "invitation_used"
kind_text invite_email_mismatch = str "invite_email_mismatch"
kind_text lease_lost = str "lease_lost"
kind_text rate_limited = str "rate_limited"
kind_text internal = str "internal"
kind_text (other_kind s) = s

-- `ErrorKind.IsValid`.
unfoldable pub kind_is_valid : ErrorKind → Bool
kind_is_valid (other_kind s) = false
kind_is_valid _ = true

pub data Err : Type 0 where
  domain : ErrorKind → Err
  plain : Str → Err
  wrap : Str → Err → Err
  join : Err → Err → Err

-- `err.Error()`.
unfoldable pub error_text : Err → Str
unfolding kind_text
error_text (domain k) = kind_text k
error_text (plain s) = s
error_text (wrap s e) = s ++ str ": " ++ error_text e
error_text (join a b) = error_text a ++ 10 ∷ error_text b

abbrev or_else : Option ErrorKind → Option ErrorKind → Option ErrorKind
or_else none o = o
or_else (some k) o = some k

-- `errors.AsType[*Error]`: the first domain error in the tree, depth first.
abbrev pub as_domain : Err → Option ErrorKind
as_domain (domain k) = some k
as_domain (plain s) = none
as_domain (wrap s e) = as_domain e
as_domain (join a b) = or_else (as_domain a) (as_domain b)

abbrev pub is_lease_lost_kind : ErrorKind → Bool
is_lease_lost_kind lease_lost = true
is_lease_lost_kind _ = false

-- `errors.Is(err, NewError(ErrorLeaseLost))`: some domain error in the tree is of that kind.
abbrev pub is_lease_lost : Err → Bool
is_lease_lost (domain k) = is_lease_lost_kind k
is_lease_lost (plain s) = false
is_lease_lost (wrap s e) = is_lease_lost e
is_lease_lost (join a b) = is_lease_lost a || is_lease_lost b

abbrev pub is_invalid_credentials_kind : Option ErrorKind → Bool
is_invalid_credentials_kind (some invalid_credentials) = true
is_invalid_credentials_kind _ = false

-- `isInvalidCredentials`.
abbrev pub is_invalid_credentials : Err → Bool
is_invalid_credentials e = is_invalid_credentials_kind (as_domain e)

pub data Result {ℓ} (A : Type ℓ) : Type ℓ where
  ok : A → Result A
  err : Err → Result A

abbrev pub is_ok {ℓ} : {A : Type ℓ} → Result A → Bool
is_ok (ok a) = true
is_ok (err e) = false

-- The error of a result, where only that is read.
abbrev pub fails {ℓ} : {A : Type ℓ} → Result A → Bool
fails (ok a) = false
fails (err e) = true

pub ok-injective {ℓ} : {A : Type ℓ} {a b : A} → ok a ≡ ok b → a ≡ b
ok-injective e = cc

-- A split on a result that keeps the equation.
pub Result-cases {ℓ} :
    {A : Type ℓ} (r : Result A) → ((a : A) × (r ≡ ok a)) ⊎ ((e : Err) × (r ≡ err e))
Result-cases (ok a) = inl (a, refl)
Result-cases (err e) = inr (e, refl)
