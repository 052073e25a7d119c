-- ===== src/RateLimit/Window.antt =====
-- What the answers of the limiter promise to a caller: the bound on every window, and the waiting
-- time of a refusal.
use mathlib.Core.List.{append_assoc, append-nil}
use clinks.Prelude.{
  ℕ, ◌≤◌, ◌≡◌, ap, subst, Bool, false, List, [], ◌∷◌, ◌++◌, arith, leb, if◌then◌else◌, Bool-cases,
  keep, keep-append, length, length-append, ℤ, inl, inr, if_either,
}
use clinks.Text.{Str, same, same→eq}
use clinks.RateLimit.{new_rate_limiter}
use clinks.RateLimit.Trim.{recent}
use clinks.RateLimit.History.{
  History, Call, allows, resets, InOrder, counting, extend, run, spec_run, run-eq-spec_run,
}

-- The times of the calls for a key that were let through.
abbrev pub granted : Str → List Call → List Bool → List ℕ
granted key [] bs = []
granted key (resets k ∷ calls) bs = granted key calls bs
granted key (allows k now ∷ calls) [] = []
granted key (allows k now ∷ calls) (b ∷ bs) =
    let rest = granted key calls bs in if same k key then (if b then now ∷ rest else rest) else rest

abbrev pub WithoutReset : List Call → Type 0
WithoutReset [] = Unit
WithoutReset (allows k now ∷ calls) = WithoutReset calls
WithoutReset (resets k ∷ calls) = ⊥

abbrev pub last_time : ℕ → List Call → ℕ
last_time t [] = t
last_time t (allows k now ∷ calls) = last_time now calls
last_time t (resets k ∷ calls) = last_time t calls

counting-antitone :
    (window m n : ℕ) (es : List ℕ)
    → m ≤ n
    → length (keep (recent window n) es) ≤ length (keep (recent window m) es)
counting-antitone window m n [] h = omega arith
counting-antitone window m n (e ∷ es) h = ground (arith, counting-antitone window m n es h)

module _ (limit window : ℕ) (key : Str) where
  abbrev Bounded : ℕ → List ℕ → Type 0
  Bounded t es = length (keep (recent window t) es) ≤ limit

  Bounded-later : (m n : ℕ) (es : List ℕ) → m ≤ n → Bounded m es → Bounded n es
  Bounded-later m n es h b = omega (arith, counting-antitone window m n es h)

  -- A grant comes only below the limit.
  Bounded-grant :
      (now : ℕ) (es : List ℕ)
      → leb limit (length (keep (recent window now) es)) ≡ false
      → Bounded now (es ++ now ∷ [])
  Bounded-grant now es h =
      rw
        (
          keep-append (recent window now) es (now ∷ []),
          length-append (keep (recent window now) es) (keep (recent window now) (now ∷ [])),
        )
        (ground arith)

  -- One granted call, put in front of the grants that follow it.
  granted_step :
      (h : History) (k : Str) (now : ℕ) (calls : List Call)
      → leb limit (counting window h k now) ≡ false
      → Bounded now (h key)
      → (let h' = extend h k (h k ++ now ∷ []) in
          Bounded now (h' key)
          → Bounded
              (last_time now calls)
              (h' key ++ granted key calls (spec_run limit window h' calls)))
      → let rest = granted key calls (spec_run limit window (extend h k (h k ++ now ∷ [])) calls) in
        Bounded (last_time now calls) (h key ++ (if same k key then now ∷ rest else rest))
  granted_step h k now calls room b later = elim (Bool-cases (same k key)) [
    | inl e ↦
        let rest = granted key calls (spec_run limit window (extend h k (h k ++ now ∷ [])) calls) in
        let step = (rw e at later) (Bounded-grant now (h k) room) in
        rw e (
          subst (λ es. Bounded (last_time now calls) (es ++ now ∷ rest)) (ap h (same→eq k key e))
            (rw (append_assoc (h k) (now ∷ []) rest) at step))
    | inr e ↦ rw e ((rw e at later) b)
  ]

  spec_run-Bounded :
      (h : History) (t : ℕ) (calls : List Call)
      → InOrder t calls
      → WithoutReset calls
      → Bounded t (h key)
      → Bounded (last_time t calls) (h key ++ granted key calls (spec_run limit window h calls))
  unfolding spec_run
  spec_run-Bounded h t [] o n b = rw (append-nil (h key)) b
  spec_run-Bounded h t (resets k ∷ calls) o n b = absurd n
  spec_run-Bounded h t (allows k now ∷ calls) o n b =
      let b' = Bounded-later t now (h key) o.0 b in
      elim (Bool-cases (leb limit (counting window h k now))) [
        | inl full ↦ rw full (
            if_either (λ es. Bounded (last_time now calls) (h key ++ es)) (same k key)
              (spec_run-Bounded h now calls o.1 n b') (spec_run-Bounded h now calls o.1 n b'))
        | inr room ↦ rw room (
            granted_step h k now calls room b'
              (spec_run-Bounded (extend h k (h k ++ now ∷ [])) now calls o.1 n))
      ]

-- Whatever calls come in the order of time, with no reset, and whatever their number: of the calls
-- for a key that were let through, at most the limit lie within one window back from the last call.
pub granted-within-limit :
    (limit window : ℤ) (key : Str) (calls : List Call)
    → InOrder 0 calls
    → WithoutReset calls
    → let l = new_rate_limiter limit window in
      length (keep (recent l.window (last_time 0 calls)) (granted key calls (run l calls)))
      ≤ l.limit
granted-within-limit limit window key calls o n =
    let l = new_rate_limiter limit window in
    rw (run-eq-spec_run limit window calls o)
      (spec_run-Bounded l.limit l.window key (λ k. []) 0 calls o n (omega arith))
