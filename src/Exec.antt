-- ===== src/Exec.antt =====
-- Methods that call the stores: an action takes the state of everything outside the service
-- (database, mailer, clock) and returns a result and the new state. What a call wrote before a later
-- call fails stays written, so the state comes back beside an error too.
pub mod Hoare
use clinks.Prelude.{◌≡◌, refl, Bool, true, false}
use clinks.Errors.{ErrorKind, domain, Err, Result, ok, err}

abbrev pub Act : Type 0 → Type 0 → Type 0
Act W A = W → Result A × W

module _ {W A : Type 0} where
  abbrev pub pure : A → Act W A
  pure a w = (ok a, w)

  abbrev pub raise : Err → Act W A
  raise e w = (err e, w)

  -- `return …, NewError(kind)`.
  abbrev pub reject : ErrorKind → Act W A
  reject k w = (err (domain k), w)

  -- A function that touches no state.
  abbrev pub lift : Result A → Act W A
  lift r w = (r, w)

  -- A call whose error the caller looks at itself.
  abbrev pub attempt : Act W A → Act W (Result A)
  attempt m w = let (r, w') = m w in (ok r, w')

module _ {W A B : Type 0} where
  abbrev pub continue : Result A → (A → Act W B) → Act W B
  continue (ok a) f w = f a w
  continue (err e) f w = (err e, w)

  infixl 5 ◌>>=◌ ◌>>◌
  abbrev pub ◌>>=◌ : Act W A → (A → Act W B) → Act W B
  ◌>>=◌ m f w = let (r, w') = m w in continue r f w'

  abbrev pub ◌>>◌ : Act W A → Act W B → Act W B
  m >> n = m >>= λ _. n

  -- A successful block had a successful first step.
  pub continue-eq-ok :
      (r : Result A) (f : A → Act W B) (w : W) {b : B}
      → (continue r f w).0 ≡ ok b
      → (a : A) × (r ≡ ok a) × (continue r f w ≡ f a w)
  continue-eq-ok (ok a) f w h = (a, refl, refl)
  continue-eq-ok (err e) f w h = cc

  pub >>=-eq-ok :
      (m : Act W A) (f : A → Act W B) (w : W) {b : B}
      → ((m >>= f) w).0 ≡ ok b
      → (a : A) × ((m w).0 ≡ ok a) × ((m >>= f) w ≡ f a (m w).1)
  >>=-eq-ok m f w h = continue-eq-ok (m w).0 f (m w).1 h

-- `if err != nil { return NewError(kind) }`.
abbrev pub replace_error : {A : Type 0} → ErrorKind → Result A → Result A
replace_error k (ok a) = ok a
replace_error k (err e) = err (domain k)

abbrev pub or_reject : {W A : Type 0} → Act W A → ErrorKind → Act W A
or_reject m k w = let (r, w') = m w in (replace_error k r, w')

module _ {W : Type 0} where
  -- `if !condition { return NewError(kind) }`.
  abbrev pub require_that : Bool → ErrorKind → Act W (Unit {0})
  require_that true k w = (ok tt, w)
  require_that false k w = (err (domain k), w)

-- An action that keeps a predicate on the state, whatever it returns.
pub record Keeps {W A : Type 0} (P : W → Type 0) (m : Act W A) : Type 0 where
  pub keeps : (w : W) → P w → P (m w).1

module _ {W A B : Type 0} (P : W → Type 0) where
  continue-Keeps :
      (r : Result A) (f : A → Act W B)
      → ((a : A) → Keeps P (f a))
      → (w : W) → P w
      → P (continue r f w).1
  continue-Keeps (ok a) f k w p = (k a).keeps w p
  continue-Keeps (err e) f k w p = p

  pub >>=-Keeps :
      (m : Act W A) (f : A → Act W B) → Keeps P m → ((a : A) → Keeps P (f a)) → Keeps P (m >>= f)
  >>=-Keeps m f km kf = record { keeps = λ w p. continue-Keeps (m w).0 f kf (m w).1 (km.keeps w p) }

pub require_that-Keeps :
    {W : Type 0} (P : W → Type 0) (b : Bool) (k : ErrorKind) → Keeps P (require_that b k)
require_that-Keeps P true k = record { keeps = λ w p. p }
require_that-Keeps P false k = record { keeps = λ w p. p }
