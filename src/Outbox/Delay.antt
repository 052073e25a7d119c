-- ===== src/Outbox/Delay.antt =====
-- The waiting times of `retryDelay`.
use clinks.Prelude.{ℕ, zero, suc, ◌+◌, ◌-◌, ◌*◌, ◌^◌, ◌≤◌, min, max, ◌≡◌, ap, arith}
use clinks.Outbox.{minute, hour}
use clinks.Outbox.Settle.{retry_delay}

exponent : (attempts : ℕ) → 7 ≤ attempts → min (max attempts 1 - 1) 6 ≡ 6
exponent attempts h = omega arith

late_delay : (attempts : ℕ) → 7 ≤ attempts → retry_delay attempts ≡ hour
unfolding retry_delay
late_delay attempts h = ap (λ e. min (minute * 2 ^ e) hour) (exponent attempts h)

late_bounds :
    (attempts : ℕ)
    → 7 ≤ attempts
    → (minute ≤ retry_delay attempts)
      × (retry_delay attempts ≤ hour)
      × (retry_delay attempts ≤ retry_delay (attempts + 1))
late_bounds attempts h =
    let now = late_delay attempts h in
    let next = late_delay (attempts + 1) (omega arith) in
    (omega (arith, now), omega (arith, now), omega (arith, now, next))

-- A job waits between a minute and an hour for its next attempt, and never less than after the attempt
-- before.
pub retry_delay_bounds :
    (attempts : ℕ)
    → (minute ≤ retry_delay attempts)
      × (retry_delay attempts ≤ hour)
      × (retry_delay attempts ≤ retry_delay (attempts + 1))
unfolding retry_delay
retry_delay_bounds zero = (omega arith, omega arith, omega arith)
retry_delay_bounds (suc zero) = (omega arith, omega arith, omega arith)
retry_delay_bounds (suc (suc zero)) = (omega arith, omega arith, omega arith)
retry_delay_bounds (suc (suc (suc zero))) = (omega arith, omega arith, omega arith)
retry_delay_bounds (suc (suc (suc (suc zero)))) = (omega arith, omega arith, omega arith)
retry_delay_bounds (suc (suc (suc (suc (suc zero))))) = (omega arith, omega arith, omega arith)
retry_delay_bounds (suc (suc (suc (suc (suc (suc zero)))))) =
    (omega arith, omega arith, omega arith)
retry_delay_bounds (suc (suc (suc (suc (suc (suc (suc n))))))) =
    late_bounds (suc (suc (suc (suc (suc (suc (suc n))))))) (omega arith)
