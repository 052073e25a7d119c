-- ===== src/RateLimit/Trim.antt =====
-- Trimming at a cutoff, as a test on entries.
use clinks.Prelude.{
  ℕ, ◌+◌, ◌≤◌, ◌<◌, ◌≡◌, refl, Bool, List, [], ◌∷◌, ◌++◌, Option, none, some, arith, ltb,
  if◌then◌else◌, keep, All,
}
use clinks.RateLimit.{cutoff_at, after, trim_expired, entry_list, clean_entry, stored}

-- An entry still counts at a time if it is younger than the window.
abbrev pub recent : ℕ → ℕ → ℕ → Bool
recent window now entry = ltb now (entry + window)

pub after-recent :
    (window now entry : ℕ) → after entry (cutoff_at now window) ≡ recent window now entry
after-recent window now entry = ground arith

unfoldable pub trim : ℕ → ℕ → List ℕ → List ℕ
trim window now es = trim_expired es (cutoff_at now window)

pub trim-cons :
    (window now e : ℕ) (es : List ℕ)
    → trim window now (e ∷ es) ≡ (if recent window now e then e ∷ es else trim window now es)
unfolding trim trim_expired
trim-cons window now e es = rw (after-recent window now e)

pub trim-nil : (window now : ℕ) → trim window now [] ≡ []
unfolding trim trim_expired
trim-nil window now = refl

-- What is dropped stays dropped later.
pub trim-trim :
    (window now t : ℕ) (es : List ℕ)
    → now ≤ t
    → trim window t (trim window now es) ≡ trim window t es
trim-trim window now t [] h = rw (trim-nil window now)
trim-trim window now t (e ∷ es) h =
    ground (arith, trim-cons window now e es, trim-cons window t e es, trim-trim window now t es h)

pub entry_list-clean :
    (window now : ℕ) (o : Option (List ℕ))
    → entry_list (clean_entry o (cutoff_at now window)) ≡ trim window now (entry_list o)
unfolding clean_entry trim trim_expired
entry_list-clean window now none = refl
entry_list-clean window now (some es) = stored_list (trim_expired es (cutoff_at now window))
  where
    stored_list : (xs : List ℕ) → entry_list (stored xs) ≡ xs
    stored_list [] = refl
    stored_list (x ∷ xs) = refl

-- On entries in the order of time, the ones that trimming leaves are those that still count.
abbrev pub Upto : ℕ → List ℕ → Type 0
Upto n = All (λ e. e ≤ n)

abbrev pub Ordered : List ℕ → Type 0
Ordered [] = Unit
Ordered (e ∷ es) = All (λ f. e ≤ f) es × Ordered es

keep-All :
    (window t e : ℕ) (es : List ℕ)
    → t < e + window
    → All (λ f. e ≤ f) es
    → keep (recent window t) es ≡ es
keep-All window t e [] r h = refl
keep-All window t e (f ∷ fs) r h = ground (arith, keep-All window t e fs r h.1)

pub trim-eq-keep :
    (window t : ℕ) (es : List ℕ) → Ordered es → trim window t es ≡ keep (recent window t) es
trim-eq-keep window t [] h = trim-nil window t
trim-eq-keep window t (e ∷ es) h =
    ground (arith, trim-cons window t e es, keep-All window t e es, trim-eq-keep window t es h.1)

-- The newest entry counts whenever an older one does.
pub trim-append :
    (window t n : ℕ) (es : List ℕ)
    → Upto n es
    → trim window t (es ++ n ∷ []) ≡ trim window t es ++ keep (recent window t) (n ∷ [])
trim-append window t n [] h = ground (arith, trim-cons window t n [], trim-nil window t)
trim-append window t n (e ∷ es) h = ground (
  arith,
  trim-cons window t e es,
  trim-cons window t e (es ++ n ∷ []),
  trim-append window t n es h.1,
)

pub Upto-mono : {m n : ℕ} (es : List ℕ) → m ≤ n → Upto m es → Upto n es
Upto-mono [] h u = tt
Upto-mono (e ∷ es) h u = (omega arith, Upto-mono es h u.1)

pub Upto-append : (n : ℕ) (es fs : List ℕ) → Upto n es → Upto n fs → Upto n (es ++ fs)
Upto-append n [] fs u v = v
Upto-append n (e ∷ es) fs u v = (u.0, Upto-append n es fs u.1 v)

pub Upto-keep : (n : ℕ) (p : ℕ → Bool) (es : List ℕ) → Upto n es → Upto n (keep p es)
Upto-keep n p [] u = tt
Upto-keep n p (e ∷ es) u = ground (arith, Upto-keep n p es u.1)
