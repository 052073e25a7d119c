-- ===== src/Exec/Hoare.antt =====
-- What an action that succeeds has achieved: pre- and postconditions, with a rule for each way to
-- build an action. What a call learns about the state is a precondition of the calls after it.
use clinks.Prelude.{◌≡◌, refl, Bool, true, false, inl, inr, arith}
use clinks.Errors.{ErrorKind, Result, ok, err, Result-cases}
use clinks.Exec.{Act, Keeps, continue, require_that, ◌>>=◌}
use clinks.Sql.{transaction}

pub record Ensures {W A : Type 0} (P : W → Type 0) (m : Act W A) (Q : A → W → Type 0) : Type 0 where
  pub at : (w : W) → P w → (a : A) → (m w).0 ≡ ok a → Q a (m w).1

module _ {W A B : Type 0} {Q : A → W → Type 0} {R : B → W → Type 0} where
  continue-Ensures :
      (r : Result A) (f : A → Act W B) (w : W)
      → ((a : A) → Ensures (Q a) (f a) R)
      → ((a : A) → r ≡ ok a → Q a w)
      → (b : B) → (continue r f w).0 ≡ ok b
      → R b (continue r f w).1
  continue-Ensures (ok a) f w k q b h = (k a).at w (q a refl) b h
  continue-Ensures (err e) f w k q b h = absurd (cc)

  pub >>=-Ensures :
      {P : W → Type 0} (m : Act W A) (f : A → Act W B)
      → Ensures P m Q
      → ((a : A) → Ensures (Q a) (f a) R)
      → Ensures P (m >>= f) R
  >>=-Ensures m f km kf = record {
    at = λ w p b h. continue-Ensures (m w).0 f (m w).1 kf (km.at w p) b h;
  }

module _ {W : Type 0} (P : W → Type 0) where
  pub require_that-Ensures :
      (b : Bool) (k : ErrorKind) → Ensures P (require_that b k) (λ u w. P w × (b ≡ true))
  require_that-Ensures true k = record { at = λ w p u h. (p, refl) }
  require_that-Ensures false k = record { at = λ w p u h. absurd (cc) }

  -- A transaction keeps what its body re-establishes wherever it succeeds.
  pub transaction-Ensures :
      {A : Type 0} (m : Act W A) → Ensures P m (λ a w. P w) → Keeps P (transaction m)
  transaction-Ensures m k = record {
    keeps = λ w p. elim (Result-cases (m w).0) [
      | inl (a, e) ↦ rw e (k.at w p a e)
      | inr (x, e) ↦ rw e p
    ];
  }

-- An action that keeps a predicate ensures it.
pub Keeps-Ensures :
    {W A : Type 0} (P : W → Type 0) (m : Act W A) → Keeps P m → Ensures P m (λ a w. P w)
Keeps-Ensures P m k = record { at = λ w p a h. k.keeps w p }

-- What is known of no state may be used by the rest.
pub Ensures-known :
    {W A F : Type 0} {P : W → Type 0} {m : Act W A} {Q : A → W → Type 0}
    → (F → Ensures P m Q)
    → Ensures (λ w. P w × F) m Q
Ensures-known k = record { at = λ w p a h. (k p.1).at w p.0 a h }

-- A transaction that succeeds has achieved what its body achieves.
pub transaction-Achieves :
    {W A : Type 0} {P : W → Type 0} {Q : A → W → Type 0} (m : Act W A)
    → Ensures P m Q
    → Ensures P (transaction m) Q
transaction-Achieves m k = record {
  at = λ w p a h. elim (Result-cases (m w).0) [
    | inl (a', e) ↦ let same : (m w).0 ≡ ok a = ground arith in rw e (k.at w p a same)
    | inr (x, e) ↦ absurd (ground arith)
  ];
}
