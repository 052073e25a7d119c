-- ===== src/Pagination.antt =====
-- pagination.go, with the filters of user.go, invitation_filter.go and audit.go: page sizes, sort
-- orders and the normalisation of a filter before it reaches a store.
pub mod Filters
pub mod Bounds
pub mod Tests
use clinks.Prelude.{
  ℕ, Bool, ◌||◌, not, Option, none, some, ltb, ◌==◌, if◌then◌else◌, ℤ, pos, negsuc, List,
}
use clinks.Text.{Str, str, same}

abbrev pub default_page_size : ℕ
default_page_size = 20

abbrev pub max_page_size : ℕ
max_page_size = 100

unfoldable pub effective_limit : ℤ → ℤ
effective_limit (negsuc n) = pos default_page_size
effective_limit (pos n) =
    if n == 0
    then pos default_page_size
    else if ltb max_page_size n
    then pos max_page_size
    else pos n

abbrev pub sort_ascending : Str
sort_ascending = str "ascending"

abbrev pub sort_descending : Str
sort_descending = str "descending"

-- `SortDirection.IsValid`.
unfoldable pub direction_is_valid : Str → Bool
direction_is_valid direction = same direction sort_ascending || same direction sort_descending

-- `Page[T]`.
pub record Page (A : Type 0) : Type 0 where
  pub items : List A
  pub next_cursor : Str

-- `pointer != nil && !pointer.IsValid()`.
abbrev pub bad_pointer : {A : Type 0} → (A → Bool) → Option A → Bool
bad_pointer p none = Bool.false
bad_pointer p (some a) = not (p a)

-- The `IsValid` of the sort orders.
unfoldable pub tenant_sort_is_valid : Str → Bool
tenant_sort_is_valid sort = same sort (str "name") || same sort (str "created_at")

unfoldable pub membership_sort_is_valid : Str → Bool
membership_sort_is_valid sort = same sort (str "email") || same sort (str "created_at")

unfoldable pub role_sort_is_valid : Str → Bool
role_sort_is_valid sort = same sort (str "name") || same sort (str "created_at")

unfoldable pub language_sort_is_valid : Str → Bool
language_sort_is_valid sort = same sort (str "name") || same sort (str "code")

unfoldable pub translation_sort_is_valid : Str → Bool
translation_sort_is_valid sort = same sort (str "key") || same sort (str "updated_at")

unfoldable pub user_sort_is_valid : Str → Bool
user_sort_is_valid sort = same sort (str "email") || same sort (str "created_at")

unfoldable pub invitation_sort_is_valid : Str → Bool
invitation_sort_is_valid sort =
    same sort (str "created_at") || same sort (str "email") || same sort (str "expires_at")

-- `InvitationStatusFilter.IsValid`.
unfoldable pub status_filter_is_valid : Str → Bool
status_filter_is_valid status =
    same status (str "all")
    || same status (str "pending")
    || same status (str "used")
    || same status (str "expired")
    || same status (str "revoked")
