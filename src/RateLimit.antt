-- ===== src/RateLimit.antt =====
-- web/rate_limit.go: the sliding-window limiter of failed logins. The mutex makes each method one
-- step on the state; the clock reading is an argument. A Go map is a function from keys, so the loop
-- of `cleanupLocked` over a map is pointwise.
pub mod Trim
pub mod History
pub mod Window
pub mod Wait
pub mod Tests
use clinks.Prelude.{
  ℕ, zero, suc, ◌+◌, ◌-◌, ◌*◌, ◌/◌, Bool, true, false, ◌||◌, not, List, [], ◌∷◌, ◌++◌, Option, none,
  some, ltb, leb, ◌==◌, if◌then◌else◌, length, get_or, ℤ, pos, negsuc,
}
use clinks.Text.{Str, same}

abbrev pub default_rate_limit : ℕ
default_rate_limit = 5

-- Ten minutes in nanoseconds.
abbrev pub default_rate_window : ℕ
default_rate_window = 10 * 60 * 1000000000

pub record RateLimiter : Type 0 where
  pub entries : Str → Option (List ℕ)
  pub limit : ℕ
  pub window : ℕ
  pub next_cleanup : ℕ

abbrev positive_or : ℕ → ℤ → ℕ
positive_or d (pos zero) = d
positive_or d (pos (suc n)) = suc n
positive_or d (negsuc n) = d

unfoldable pub new_rate_limiter : ℤ → ℤ → RateLimiter
new_rate_limiter limit window = record {
  entries = λ k. none;
  limit = positive_or default_rate_limit limit;
  window = positive_or default_rate_window window;
  next_cleanup = 0;
}

-- `now.Add(-window)`, which may lie before the zero time.
abbrev pub cutoff_at : ℕ → ℕ → ℤ
cutoff_at now window = if leb window now then pos (now - window) else negsuc (window - now - 1)

-- `entry.After(cutoff)`.
abbrev pub after : ℕ → ℤ → Bool
after entry (pos c) = ltb c entry
after entry (negsuc c) = true

unfoldable pub trim_expired : List ℕ → ℤ → List ℕ
trim_expired [] cutoff = []
trim_expired (entry ∷ rest) cutoff =
    let later = trim_expired rest cutoff in if after entry cutoff then entry ∷ rest else later

-- `m[key]`, with nil for a missing key.
abbrev pub entry_list : Option (List ℕ) → List ℕ
entry_list none = []
entry_list (some es) = es

-- What the loop of `cleanupLocked` does with one key: delete it or store the trimmed entries.
abbrev pub stored : List ℕ → Option (List ℕ)
stored [] = none
stored (e ∷ es) = some (e ∷ es)

pub clean_entry : Option (List ℕ) → ℤ → Option (List ℕ)
clean_entry none cutoff = none
clean_entry (some es) cutoff = stored (trim_expired es cutoff)

unfoldable pub cleanup : RateLimiter → ℤ → RateLimiter
unfolding clean_entry
cleanup limiter cutoff = record limiter { entries = λ k. clean_entry (limiter.entries k) cutoff }

abbrev pub update : (Str → Option (List ℕ)) → Str → Option (List ℕ) → Str → Option (List ℕ)
update m key v k = if same key k then v else m k

-- The part of `allow` before the entries of the key are read.
unfoldable pub maybe_cleanup : RateLimiter → ℕ → RateLimiter
maybe_cleanup limiter now =
    if limiter.next_cleanup == 0 || not (ltb now limiter.next_cleanup)
    then record (cleanup limiter (cutoff_at now limiter.window)) {
      next_cleanup = now + limiter.window / 2;
    }
    else limiter

-- The rest of `allow`: the new state, whether the call may go on, and the time to wait. `-` stops at
-- 0, as `max(…, 0)` does. The index 0 is in range because `limit` is at least 1.
unfoldable pub admit : RateLimiter → Str → ℕ → RateLimiter × Bool × ℕ
admit limiter key now =
    let es = trim_expired (entry_list (limiter.entries key)) (cutoff_at now limiter.window) in
    if leb limiter.limit (length es)
    then (
      record limiter { entries = update limiter.entries key (some es) },
      false,
      get_or es 0 0 + limiter.window - now,
    )
    else (record limiter { entries = update limiter.entries key (some (es ++ now ∷ [])) }, true, 0)

unfoldable pub allow : RateLimiter → Str → ℕ → RateLimiter × Bool × ℕ
unfolding maybe_cleanup admit cleanup clean_entry
allow limiter key now = admit (maybe_cleanup limiter now) key now

unfoldable pub reset : RateLimiter → Str → RateLimiter
reset limiter key = record limiter { entries = update limiter.entries key none }
