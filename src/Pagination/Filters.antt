-- ===== src/Pagination/Filters.antt =====
-- The filters and their `Normalized` methods.
use clinks.Prelude.{ℕ, Bool, ◌&&◌, ◌||◌, not, Option, ltb, ◌==◌, if◌then◌else◌, ℤ}
use clinks.Text.{Str, str, is_empty, trim_space}
use clinks.Errors.{Result, ok, err, domain, validation}
use clinks.Validation.{valid_uuid, normalize_search}
use clinks.Domain.{membership_status_is_valid, role_kind_is_valid, global_role_is_valid}
use clinks.Localization.{locale_is_valid, scope_is_valid}
use clinks.Pagination.{
  effective_limit, direction_is_valid, bad_pointer, tenant_sort_is_valid, membership_sort_is_valid,
  role_sort_is_valid, language_sort_is_valid, translation_sort_is_valid, user_sort_is_valid,
  invitation_sort_is_valid, status_filter_is_valid,
}

-- The search of a filter, normalised, where its other fields pass their test.
abbrev pub checked : {A : Type 0} → Result Str → Bool → (Str → A) → Result A
checked (err e) valid f = err (domain validation)
checked (ok search) valid f = if valid then ok (f search) else err (domain validation)

pub record TenantFilter : Type 0 where
  pub search : Str
  pub sort : Str
  pub direction : Str
  pub cursor : Str
  pub limit : ℤ

unfoldable pub normalized_tenant_filter : TenantFilter → Result TenantFilter
unfolding normalize_search effective_limit
normalized_tenant_filter filter =
    checked (normalize_search filter.search)
      (not (not (tenant_sort_is_valid filter.sort) || not (direction_is_valid filter.direction)))
      (λ search. record filter { search = search; limit = effective_limit filter.limit })

pub record MembershipFilter : Type 0 where
  pub search : Str
  pub role_id : Option Str
  pub status : Option Str
  pub sort : Str
  pub direction : Str
  pub cursor : Str
  pub limit : ℤ

unfoldable pub normalized_membership_filter : MembershipFilter → Result MembershipFilter
unfolding normalize_search effective_limit
normalized_membership_filter filter =
    checked (normalize_search filter.search)
      (not (
        not (membership_sort_is_valid filter.sort)
        || not (direction_is_valid filter.direction)
        || bad_pointer valid_uuid filter.role_id
        || bad_pointer membership_status_is_valid filter.status))
      (λ search. record filter { search = search; limit = effective_limit filter.limit })

pub record RoleFilter : Type 0 where
  pub search : Str
  pub kind : Option Str
  pub sort : Str
  pub direction : Str
  pub cursor : Str
  pub limit : ℤ

unfoldable pub normalized_role_filter : RoleFilter → Result RoleFilter
unfolding normalize_search effective_limit
normalized_role_filter filter =
    checked (normalize_search filter.search)
      (not (
        not (role_sort_is_valid filter.sort)
        || not (direction_is_valid filter.direction)
        || bad_pointer role_kind_is_valid filter.kind))
      (λ search. record filter { search = search; limit = effective_limit filter.limit })

pub record LanguageFilter : Type 0 where
  pub search : Str
  pub active : Option Bool
  pub sort : Str
  pub direction : Str
  pub cursor : Str
  pub limit : ℤ

unfoldable pub normalized_language_filter : LanguageFilter → Result LanguageFilter
unfolding normalize_search effective_limit
normalized_language_filter filter =
    checked (normalize_search filter.search)
      (not (not (language_sort_is_valid filter.sort) || not (direction_is_valid filter.direction)))
      (λ search. record filter { search = search; limit = effective_limit filter.limit })

pub record TranslationFilter : Type 0 where
  pub search : Str
  pub locale : Option Str
  pub application_scope : Option Str
  pub sort : Str
  pub direction : Str
  pub cursor : Str
  pub limit : ℤ

unfoldable pub normalized_translation_filter : TranslationFilter → Result TranslationFilter
unfolding normalize_search effective_limit
normalized_translation_filter filter =
    checked (normalize_search filter.search)
      (not (
        not (translation_sort_is_valid filter.sort)
        || not (direction_is_valid filter.direction)
        || bad_pointer locale_is_valid filter.locale
        || bad_pointer scope_is_valid filter.application_scope))
      (λ search. record filter { search = search; limit = effective_limit filter.limit })

pub record UserFilter : Type 0 where
  pub search : Str
  pub global_role : Option Str
  pub sort : Str
  pub direction : Str
  pub cursor : Str
  pub limit : ℤ

unfoldable pub normalized_user_filter : UserFilter → Result UserFilter
unfolding normalize_search effective_limit
normalized_user_filter filter =
    checked (normalize_search filter.search)
      (not (
        not (user_sort_is_valid filter.sort)
        || not (direction_is_valid filter.direction)
        || bad_pointer global_role_is_valid filter.global_role))
      (λ search. record filter { search = search; limit = effective_limit filter.limit })

pub record InvitationFilter : Type 0 where
  pub search : Str
  pub tenant_id : Option Str
  pub status : Str
  pub sort : Str
  pub direction : Str
  pub cursor : Str
  pub limit : ℤ

-- An empty status means all invitations.
abbrev status_or_all : Str → Str
status_or_all status = if is_empty status then str "all" else status

unfoldable pub normalized_invitation_filter : InvitationFilter → Result InvitationFilter
unfolding normalize_search effective_limit
normalized_invitation_filter filter =
    let status' = status_or_all filter.status in
    checked (normalize_search filter.search)
      (not (
          not (invitation_sort_is_valid filter.sort)
          || not (direction_is_valid filter.direction)
          || bad_pointer valid_uuid filter.tenant_id)
        && status_filter_is_valid status')
      (λ search. record filter {
        search = search;
        status = status';
        limit = effective_limit filter.limit;
      })

-- `From` and `To` are 0 where no bound is given.
pub record AuditFilter : Type 0 where
  pub from : ℕ
  pub to : ℕ
  pub actor_id : Option Str
  pub tenant_id : Option Str
  pub action : Str
  pub search : Str
  pub direction : Str
  pub cursor : Str
  pub page_size : ℤ

unfoldable pub normalized_audit_filter : AuditFilter → Result AuditFilter
unfolding normalize_search effective_limit trim_space
normalized_audit_filter filter =
    checked (normalize_search filter.search)
      (not (
        not (direction_is_valid filter.direction)
        || not (filter.from == 0) && not (filter.to == 0) && ltb filter.to filter.from
        || bad_pointer valid_uuid filter.actor_id
        || bad_pointer valid_uuid filter.tenant_id))
      (λ search. record filter {
        action = trim_space filter.action;
        search = search;
        page_size = effective_limit filter.page_size;
      })
