-- ===== src/RateLimit/History.antt =====
-- The limiter refines a plain history: per key, every call that was let through, with nothing ever
-- trimmed or cleaned up.
use clinks.Prelude.{
  ℕ, ◌≤◌, ◌≡◌, refl, ap₂, subst₂, ◌∙◌, Bool, true, false, List, [], ◌∷◌, ◌++◌, some, arith, ltb,
  leb, if◌then◌else◌, Bool-cases, if_either, ◌==◌, ◌||◌, not, keep, keep-append, length, ℤ, inl,
  inr,
}
use clinks.Text.{Str, same, same→eq}
use clinks.RateLimit.{
  RateLimiter, new_rate_limiter, cutoff_at, entry_list, cleanup, update, maybe_cleanup, admit,
  allow, reset,
}
use clinks.RateLimit.Trim.{
  recent, trim, trim-trim, trim-nil, trim-append, entry_list-clean, Upto, Upto-mono, Upto-append,
  Upto-keep,
}

abbrev pub History : Type 0
History = Str → List ℕ

abbrev pub counting : ℕ → History → Str → ℕ → ℕ
counting window h key now = length (keep (recent window now) (h key))

abbrev pub extend : History → Str → List ℕ → History
extend h key es k = if same key k then es else h k

-- A call is let through if fewer than `limit` calls that were let through are younger than the
-- window.
abbrev pub spec_allow : ℕ → ℕ → History → Str → ℕ → History × Bool
spec_allow limit window h key now =
    if leb limit (counting window h key now)
    then (h, false)
    else (extend h key (h key ++ now ∷ []), true)

abbrev pub spec_reset : History → Str → History
spec_reset h key = extend h key []

-- The limiter and a history agree from the time `now` on.
pub record Simulates (l : RateLimiter) (h : History) (now : ℕ) : Type 0 where
  pub live :
      (k : Str) (t : ℕ)
      → now ≤ t
      → trim l.window t (entry_list (l.entries k)) ≡ keep (recent l.window t) (h k)
  pub upto : (k : Str) → Upto now (h k)

Simulates-later :
    (l : RateLimiter) (h : History) (m n : ℕ) → m ≤ n → Simulates l h m → Simulates l h n
Simulates-later l h m n le s = record {
  live = λ k t u. s.live k t (omega arith);
  upto = λ k. Upto-mono (h k) le (s.upto k);
}

cleanup-Simulates :
    (l : RateLimiter) (h : History) (now : ℕ)
    → Simulates l h now
    → Simulates (cleanup l (cutoff_at now l.window)) h now
unfolding cleanup
cleanup-Simulates l h now s = record {
  live = λ k t u.
      rw
        (
          entry_list-clean l.window now (l.entries k),
          trim-trim l.window now t (entry_list (l.entries k)) u,
        )
        (s.live k t u);
  upto = s.upto;
}

maybe_cleanup-Simulates :
    (l : RateLimiter) (h : History) (now : ℕ)
    → Simulates l h now
    → Simulates (maybe_cleanup l now) h now
unfolding maybe_cleanup cleanup
maybe_cleanup-Simulates l h now s =
    let c = cleanup-Simulates l h now s in
    if_either (λ m. Simulates m h now) (l.next_cleanup == 0 || not (ltb now l.next_cleanup))
      (record { live = c.live; upto = c.upto }) s

pub maybe_cleanup_keeps :
    (l : RateLimiter) (now : ℕ)
    → ((maybe_cleanup l now).window ≡ l.window) × ((maybe_cleanup l now).limit ≡ l.limit)
unfolding maybe_cleanup cleanup
maybe_cleanup_keeps l now = ground arith

abbrev Refines : ℕ → ℕ → ℕ → RateLimiter × Bool × ℕ → History × Bool → Type 0
Refines limit window now (l, b, w) (h, c) =
    (b ≡ c) × Simulates l h now × (l.window ≡ window) × (l.limit ≡ limit)

module _ (l : RateLimiter) (h : History) (key : Str) (now : ℕ) (s : Simulates l h now) where
  es : List ℕ
  es = trim l.window now (entry_list (l.entries key))

  abbrev rejected : RateLimiter
  rejected = record l { entries = update l.entries key (some es) }

  abbrev accepted : RateLimiter
  accepted = record l { entries = update l.entries key (some (es ++ now ∷ [])) }

  es-Upto : Upto now es
  unfolding es
  es-Upto =
      rw (s.live key now (omega arith)) (Upto-keep now (recent l.window now) (h key) (s.upto key))

  es-trim : (t : ℕ) → now ≤ t → trim l.window t es ≡ keep (recent l.window t) (h key)
  unfolding es
  es-trim t u = trim-trim l.window now t (entry_list (l.entries key)) u ∙ s.live key t u

  rejected-Simulates : Simulates rejected h now
  rejected-Simulates = record {
    live = λ k t u. elim (Bool-cases (same key k)) [
      | inl e ↦ rw e (rw (← same→eq key k e) (es-trim t u))
      | inr e ↦ rw e (s.live k t u)
    ];
    upto = s.upto;
  }

  accepted-Simulates : Simulates accepted (extend h key (h key ++ now ∷ [])) now
  accepted-Simulates = record {
    live = λ k t u. elim (Bool-cases (same key k)) [
      | inl e ↦ rw (
        e,
        trim-append l.window t now es es-Upto,
        es-trim t u,
        keep-append (recent l.window t) (h key) (now ∷ []),
      )
      | inr e ↦ rw e (s.live k t u)
    ];
    upto = λ k. elim (Bool-cases (same key k)) [
      | inl e ↦ rw e (Upto-append now (h key) (now ∷ []) (s.upto key) (omega arith))
      | inr e ↦ rw e (s.upto k)
    ];
  }

  admit-Refines :
      Refines l.limit l.window now (admit l key now) (spec_allow l.limit l.window h key now)
  unfolding admit es trim
  admit-Refines = rw (← s.live key now (omega arith)) (elim (Bool-cases (leb l.limit (length es))) [
    | inl full ↦ rw full (refl, rejected-Simulates, refl, refl)
    | inr room ↦ rw room (refl, accepted-Simulates, refl, refl)
  ])

-- A call at a time is decided by the history alone, and the new state agrees with the new history.
allow-Refines :
    (l : RateLimiter) (h : History) (key : Str) (now : ℕ)
    → Simulates l h now
    → Refines l.limit l.window now (allow l key now) (spec_allow l.limit l.window h key now)
unfolding allow
allow-Refines l h key now s =
    let m = maybe_cleanup l now in
    let (w, n) = maybe_cleanup_keeps l now in
    subst₂
      (λ limit window.
        Refines limit window now (admit m key now) (spec_allow limit window h key now))
      n w (admit-Refines m h key now (maybe_cleanup-Simulates l h now s))

reset-Simulates :
    (l : RateLimiter) (h : History) (key : Str) (now : ℕ)
    → Simulates l h now
    → Simulates (reset l key) (spec_reset h key) now
unfolding reset
reset-Simulates l h key now s = record {
  live = λ k t u. elim (Bool-cases (same key k)) [
    | inl e ↦ rw e (trim-nil l.window t)
    | inr e ↦ rw e (s.live k t u)
  ];
  upto = λ k. elim (Bool-cases (same key k)) [ inl e ↦ rw e tt | inr e ↦ rw e (s.upto k) ];
}

pub data Call : Type 0 where
  allows : Str → ℕ → Call
  resets : Str → Call

-- The answers of a sequence of calls; a reset has none.
unfoldable pub run : RateLimiter → List Call → List Bool
run l [] = []
run l (allows key now ∷ calls) = let (l', b, w) = allow l key now in b ∷ run l' calls
run l (resets key ∷ calls) = run (reset l key) calls

unfoldable pub spec_run : ℕ → ℕ → History → List Call → List Bool
spec_run limit window h [] = []
spec_run limit window h (allows key now ∷ calls) =
    let (h', b) = spec_allow limit window h key now in b ∷ spec_run limit window h' calls
spec_run limit window h (resets key ∷ calls) = spec_run limit window (spec_reset h key) calls

-- The clock does not run backwards.
abbrev pub InOrder : ℕ → List Call → Type 0
InOrder t [] = Unit
InOrder t (allows key now ∷ calls) = (t ≤ now) × InOrder now calls
InOrder t (resets key ∷ calls) = InOrder t calls

run_refines :
    (limit window : ℕ) (l : RateLimiter) (h : History) (t : ℕ) (calls : List Call)
    → l.limit ≡ limit
    → l.window ≡ window
    → Simulates l h t
    → InOrder t calls
    → run l calls ≡ spec_run limit window h calls
unfolding run spec_run
run_refines limit window l h t [] el ew s o = refl
run_refines limit window l h t (allows key now ∷ calls) el ew s o =
    let r = allow-Refines l h key now (Simulates-later l h t now o.0 s) in
    let r' = subst₂ (λ n w. Refines n w now (allow l key now) (spec_allow n w h key now)) el ew r in
    ap₂ ◌∷◌ r'.0 (
      run_refines limit window (allow l key now).0 (spec_allow limit window h key now).0 now calls
        r'.3 r'.2 r'.1 o.1)
run_refines limit window l h t (resets key ∷ calls) el ew s o =
    run_refines limit window (reset l key) (spec_reset h key) t calls (unfold reset in el)
      (unfold reset in ew) (reset-Simulates l h key t s) o

-- For calls in the order of time, the limiter with its trimming, cleaning and lazy deletion answers
-- as the plain history does: a call is let through exactly if fewer than the limit of the calls for
-- its key that were let through since the last reset are younger than the window.
pub run-eq-spec_run :
    (limit window : ℤ) (calls : List Call)
    → InOrder 0 calls
    → let l = new_rate_limiter limit window in
      run l calls ≡ spec_run l.limit l.window (λ k. []) calls
unfolding new_rate_limiter
run-eq-spec_run limit window calls o =
    let l = new_rate_limiter limit window in
    run_refines l.limit l.window l (λ k. []) 0 calls refl refl
      (record { live = λ k t u. trim-nil l.window t; upto = λ k. tt }) o
