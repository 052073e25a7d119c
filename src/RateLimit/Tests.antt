-- ===== src/RateLimit/Tests.antt =====
-- A limiter of two calls in ten ticks.
use clinks.Prelude.{◌≤◌, ◌≡◌, refl, true, false, List, [], ◌∷◌, pos, arith, keep, length}
use clinks.Text.{str, same}
use clinks.RateLimit.{RateLimiter, new_rate_limiter, trim_expired, allow}
use clinks.RateLimit.Trim.{recent}
use clinks.RateLimit.History.{Call, allows, run, spec_run, run-eq-spec_run}
use clinks.RateLimit.Window.{granted, granted-within-limit}
use clinks.RateLimit.Wait.{allow_after_wait}

abbrev calls : List Call
calls =
    allows (str "a") 1
    ∷ allows (str "b") 2
    ∷ allows (str "a") 3
    ∷ allows (str "a") 4
    ∷ allows (str "a") 11
    ∷ []

run-calls : run (new_rate_limiter (pos 2) (pos 10)) calls ≡ true ∷ true ∷ true ∷ false ∷ true ∷ []
unfolding run new_rate_limiter allow trim_expired same
run-calls = refl

run-eq-spec_run_example :
    run (new_rate_limiter (pos 2) (pos 10)) calls ≡ true ∷ true ∷ true ∷ false ∷ true ∷ []
unfolding new_rate_limiter spec_run same
run-eq-spec_run_example = run-eq-spec_run (pos 2) (pos 10) calls (omega arith)

granted-within-limit_example :
    length (
      keep (recent 10 11) (granted (str "a") calls (run (new_rate_limiter (pos 2) (pos 10)) calls)))
    ≤ 2
unfolding new_rate_limiter
granted-within-limit_example =
    granted-within-limit (pos 2) (pos 10) (str "a") calls (omega arith) (omega arith)

full : RateLimiter
unfolding new_rate_limiter allow same trim_expired
full = (allow (allow (new_rate_limiter (pos 2) (pos 10)) (str "a") 1).0 (str "a") 3).0

allow_after_wait_example : (allow (allow full (str "a") 4).0 (str "a") 11).1 ≡ true
unfolding full allow trim_expired same
allow_after_wait_example = allow_after_wait full (str "a") 4 (omega arith) (omega arith) refl
