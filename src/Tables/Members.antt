-- ===== src/Tables/Members.antt =====
-- server/postgres/memberships.go: the transaction that changes a membership, and the lookups.
pub mod Administrators
pub mod Kept
pub mod Tests
use clinks.Prelude.{
  ℕ, ◌+◌, Bool, true, false, ◌&&◌, ◌||◌, not, List, [], ◌∷◌, Option, none, some, ◌==◌,
  if◌then◌else◌,
}
use clinks.Text.{Str, str, same}
use clinks.Errors.{
  conflict, membership_not_found, role_not_found, internal, domain, plain, Err, Result, ok, err,
}
use clinks.Exec.{Act, pure, require_that, ◌>>=◌, ◌>>◌}
use clinks.Sql.{update_where, first_where, any_where, row_or}
use clinks.Domain.{Membership, administrator_kind, active_status}
use clinks.Tables.{
  Tables, MembershipRow, tenant_transaction, audit, role_of, kind_is, administers, view,
  invalidate_user_session,
}

-- `SELECT id FROM tenants WHERE id = $1 FOR UPDATE`.
unfoldable pub lock_membership_tenant : Str → Act Tables (Unit {0})
lock_membership_tenant tenant_id db =
    require_that (any_where (λ t. same t.id tenant_id) db.tenants) conflict db

abbrev pub at_key : Str → Str → MembershipRow → Bool
at_key id tenant_id row = same row.id id && same row.tenant_id tenant_id

abbrev with_kind : Tables → Option MembershipRow → Result (Str × Str)
with_kind db none = err (domain membership_not_found)
with_kind db (some row) = elim (role_of db row.role_id) [
  | none ↦ err (domain membership_not_found)
  | some role ↦ ok (row.user_id, role.kind)
]

-- The user and the kind of the role of a membership.
unfoldable pub lock_membership : Str → Str → Act Tables (Str × Str)
lock_membership id tenant_id db =
    (with_kind db (first_where (at_key id tenant_id) db.memberships), db)

unfoldable pub membership_role_kind : Str → Str → Act Tables Str
membership_role_kind role_id tenant_id db =
    let role = first_where (λ r. same r.id role_id && same r.tenant_id tenant_id) db.roles in
    (elim role [ none ↦ err (domain role_not_found) | some r ↦ ok r.kind ], db)

unfoldable pub removes_administrator : Str → Str → Str → Bool
removes_administrator status current_role_kind target_role_kind =
    same current_role_kind administrator_kind
    && (not (same status active_status) || not (same target_role_kind administrator_kind))

-- `count(*) … other.id <> $2` is not 0.
abbrev pub other_administrators : Tables → Str → Str → Bool
other_administrators db tenant_id id =
    any_where (λ other. administers db tenant_id other && not (same other.id id)) db.memberships

unfoldable pub protect_final_administrator : Membership → Str → Str → Act Tables (Unit {0})
unfolding removes_administrator
protect_final_administrator membership current_role_kind target_role_kind db =
    if not (removes_administrator membership.status current_role_kind target_role_kind)
    then (ok tt, db)
    else require_that (other_administrators db membership.tenant.id membership.id) conflict db

abbrev pub at_revision : Membership → MembershipRow → Bool
at_revision membership row =
    at_key membership.id membership.tenant.id row && row.revision == membership.revision

abbrev pub changed_row : Membership → ℕ → MembershipRow → MembershipRow
changed_row membership now row = record row {
  role_id = membership.role_id;
  status = membership.status;
  revision = row.revision + 1;
  updated_at = now;
}

-- The identifier is a primary key, so `RowsAffected` is 0 or 1.
unfoldable pub persist_membership_update : Membership → Act Tables (Unit {0})
persist_membership_update membership db =
    if any_where (at_revision membership) db.memberships
    then (
      ok tt,
      record db {
        memberships =
            update_where (at_revision membership) (changed_row membership db.now) db.memberships;
      },
    )
    else (err (domain conflict), db)

abbrev pub view_or : Tables → Option MembershipRow → Err → Result Membership
view_or db none e = err e
view_or db (some row) e = row_or (view db row) e

-- `scanMembershipValue(tx.QueryRow(membershipQuery …))`.
unfoldable pub reload : Str → Str → Act Tables Membership
reload id tenant_id db = (
  view_or db (first_where (at_key id tenant_id) db.memberships)
      (plain (str "reload membership: no rows in result set")),
  db,
)

unfoldable pub update_membership_tx : Membership → Str → Result Str → Act Tables Membership
update_membership_tx membership actor_id event_id = do
  lock_membership_tenant membership.tenant.id
  locked ← lock_membership membership.id membership.tenant.id
  target_role_kind ← membership_role_kind membership.role_id membership.tenant.id
  protect_final_administrator membership locked.1 target_role_kind
  persist_membership_update membership
  invalidate_user_session locked.0
  updated ← reload membership.id membership.tenant.id
  audit event_id (some actor_id) (some updated.tenant.id) (str "membership.updated")
      updated.user_email
  pure updated

unfoldable pub update_membership : Membership → Str → Result Str → Act Tables Membership
unfolding update_membership_tx
update_membership membership actor_id event_id =
    tenant_transaction membership.tenant.id (update_membership_tx membership actor_id event_id)

abbrev pub active_of : Str → Str → MembershipRow → Bool
active_of user_id tenant_id row =
    same row.user_id user_id && same row.tenant_id tenant_id && same row.status active_status

-- `FindActiveMembership`.
unfoldable pub find_active_membership : Str → Str → Act Tables Membership
find_active_membership user_id tenant_id = tenant_transaction tenant_id (λ db. (
  view_or db (first_where (active_of user_id tenant_id) db.memberships)
      (domain membership_not_found),
  db,
))
