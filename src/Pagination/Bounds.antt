-- ===== src/Pagination/Bounds.antt =====
-- The bounds on a page.
use clinks.Prelude.{◌≤◌, ◌≡◌, ℤ, pos, negsuc, arith}
use clinks.Pagination.{effective_limit}

-- A size that a page may have.
abbrev pub IsPageSize : ℤ → Type 0
IsPageSize (pos n) = (1 ≤ n) × (n ≤ 100)
IsPageSize (negsuc n) = ⊥

effective_limit-IsPageSize : (limit : ℤ) → IsPageSize (effective_limit limit)
unfolding effective_limit
effective_limit-IsPageSize (negsuc n) = omega arith
effective_limit-IsPageSize (pos n) = ground arith

effective_limit_fixed : (limit : ℤ) → IsPageSize limit → effective_limit limit ≡ limit
unfolding effective_limit
effective_limit_fixed (negsuc n) h = absurd h
effective_limit_fixed (pos n) h = ground arith

-- Whatever limit a caller asks for, negative ones included, the page has between 1 and 100 rows, and
-- to normalise the limit again changes nothing.
pub effective_limit_bounds :
    (limit : ℤ)
    → IsPageSize (effective_limit limit)
      × (effective_limit (effective_limit limit) ≡ effective_limit limit)
effective_limit_bounds limit =
    let h = effective_limit-IsPageSize limit in (h, effective_limit_fixed (effective_limit limit) h)
