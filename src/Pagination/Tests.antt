-- ===== src/Pagination/Tests.antt =====
-- A page of 500 rows is cut to 100.
use clinks.Prelude.{◌≡◌, pos}
use clinks.Pagination.{effective_limit}
use clinks.Pagination.Bounds.{IsPageSize, effective_limit_bounds}

effective_limit_bounds_example :
    IsPageSize (effective_limit (pos 500))
    × (effective_limit (effective_limit (pos 500)) ≡ effective_limit (pos 500))
effective_limit_bounds_example = effective_limit_bounds (pos 500)
