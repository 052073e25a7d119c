-- ===== src/RateLimit/Wait.antt =====
-- The waiting time in the answer of a refused call.
use clinks.Prelude.{
  ℕ, ◌+◌, ◌-◌, ◌≤◌, ◌<◌, ◌≡◌, refl, ◌∙◌, ◌⊎◌, Bool, true, false, List, [], ◌∷◌, arith, ltb, leb,
  length, inl, ap₂, get_or, not, ◌||◌, ◌==◌, if_either,
}
use clinks.Text.{Str, same_refl}
use clinks.RateLimit.{RateLimiter, entry_list, cleanup, maybe_cleanup, admit, allow}
use clinks.RateLimit.Trim.{trim, trim-cons, trim-nil, trim-trim, entry_list-clean}
use clinks.RateLimit.History.{maybe_cleanup_keeps}

length-trim-le : (window now : ℕ) (es : List ℕ) → length (trim window now es) ≤ length es
length-trim-le window now [] = rw (trim-nil window now) (omega arith)
length-trim-le window now (e ∷ es) =
    ground (arith, trim-cons window now e es, length-trim-le window now es)

-- The entries of a key that still count.
abbrev visible : RateLimiter → Str → ℕ → List ℕ
visible l key now = trim l.window now (entry_list (l.entries key))

visible-maybe_cleanup :
    (l : RateLimiter) (key : Str) (now : ℕ)
    → visible (maybe_cleanup l now) key now ≡ visible l key now
unfolding maybe_cleanup cleanup
visible-maybe_cleanup l key now =
    if_either (λ m. visible m key now ≡ visible l key now)
      (l.next_cleanup == 0 || not (ltb now l.next_cleanup))
      (rw (entry_list-clean l.window now (l.entries key))
        (trim-trim l.window now now (entry_list (l.entries key)) (omega arith)))
      refl

-- What a refusal leaves behind, with the entries that count.
record Refusal (limit window now : ℕ) (key : Str) (es : List ℕ) (r : RateLimiter × Bool × ℕ)
    : Type 0 where
  entries : entry_list (r.0.entries key) ≡ es
  limits : r.0.limit ≡ limit
  windows : r.0.window ≡ window
  waits : r.2 ≡ get_or es 0 0 + window - now

module _ (m : RateLimiter) (key : Str) (now : ℕ) where
  admit_lem : (admit m key now).1 ≡ not (leb m.limit (length (visible m key now)))
  unfolding admit trim
  admit_lem = ground arith

  admit-Refusal :
      leb m.limit (length (visible m key now)) ≡ true
      → Refusal m.limit m.window now key (visible m key now) (admit m key now)
  unfolding admit trim
  admit-Refusal full =
      rw full (record { entries = rw (same_refl key); limits = refl; windows = refl; waits = refl })

module _ (l : RateLimiter) (key : Str) (now : ℕ) where
  -- A call is let through exactly if fewer entries than the limit count.
  allow_lem : (allow l key now).1 ≡ not (leb l.limit (length (visible l key now)))
  unfolding allow
  allow_lem =
      admit_lem (maybe_cleanup l now) key now
      ∙ rw (visible-maybe_cleanup l key now, (maybe_cleanup_keeps l now).1)

  allow-Refusal :
      leb l.limit (length (visible l key now)) ≡ true
      → Refusal l.limit l.window now key (visible l key now) (allow l key now)
  unfolding allow
  allow-Refusal full =
      let m = maybe_cleanup l now in
      let v = visible-maybe_cleanup l key now in
      let k = maybe_cleanup_keeps l now in
      let f = admit-Refusal m key now (rw (v, k.1) full) in
      record {
        entries = f.entries ∙ v;
        limits = f.limits ∙ k.1;
        windows = f.windows ∙ k.0;
        waits = f.waits ∙ ap₂ (λ es w. get_or es 0 0 + w - now) v k.0;
      }

first-recent :
    (window now : ℕ) (es : List ℕ)
    → (trim window now es ≡ []) ⊎ (now < get_or (trim window now es) 0 0 + window)
first-recent window now [] = inl (trim-nil window now)
first-recent window now (e ∷ es) =
    ground (arith, trim-cons window now e es, first-recent window now es)

-- After the wait the oldest entry no longer counts.
trim_after_wait :
    (window now : ℕ) (es : List ℕ)
    → 1 ≤ length es
    → now < get_or es 0 0 + window
    → length (trim window (now + (get_or es 0 0 + window - now)) es) < length es
trim_after_wait window now [] n h = absurd (omega arith)
trim_after_wait window now (e ∷ es) n h =
    let t = now + (e + window - now) in
    ground (arith, trim-cons window t e es, length-trim-le window t es)

-- Where no more entries are stored than the limit, a caller who is refused and waits as long as the
-- answer says is let through.
pub allow_after_wait :
    (l : RateLimiter) (key : Str) (now : ℕ)
    → 1 ≤ l.limit
    → length (entry_list (l.entries key)) ≤ l.limit
    → let r = allow l key now in r.1 ≡ false → (allow r.0 key (now + r.2)).1 ≡ true
allow_after_wait l key now pos sized refused =
    let es = visible l key now in
    let full : leb l.limit (length es) ≡ true = ground (arith, allow_lem l key now) in
    let f = allow-Refusal l key now full in
    let young : now < get_or es 0 0 + l.window =
      ground (arith, first-recent l.window now (entry_list (l.entries key))) in
    let shorter = trim_after_wait l.window now es (ground arith) young in
    let bound = length-trim-le l.window now (entry_list (l.entries key)) in
    allow_lem (allow l key now).0 key (now + (allow l key now).2)
    ∙ rw (f.limits, f.windows, f.waits, f.entries) (ground (arith, shorter, bound))
