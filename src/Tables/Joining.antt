-- ===== src/Tables/Joining.antt =====
-- server/postgres/invitations.go: `createMembership`, which gives the user of an accepted invitation a
-- membership or reactivates the one there is.
pub mod Active
use clinks.Prelude.{ℕ, ◌+◌, Bool, ◌&&◌, not, [], ◌∷◌, ◌++◌, Option, none, some, if◌then◌else◌}
use clinks.Text.{Str, same}
use clinks.Errors.{conflict, role_not_found, domain, Result, ok, err}
use clinks.Exec.{Act, lift, require_that, ◌>>=◌, ◌>>◌}
use clinks.Sql.{update_where, first_where}
use clinks.Domain.{Tenant, Role, Membership, Invitation, active_status, inactive_status}
use clinks.Tables.{Tables, MembershipRow}

abbrev pub invited : Invitation → Str → Option Tenant → Option Role → Result Membership
invited invitation user_id (some tenant) (some role) = ok (record {
  id = [];
  user_id = user_id;
  user_email = [];
  tenant = record tenant { created_at = 0; updated_at = 0 };
  role_id = invitation.role_id;
  role = role;
  status = active_status;
  revision = 0;
  created_at = 0;
  updated_at = 0;
})
invited invitation user_id _ _ = err (domain role_not_found)

unfoldable pub invitation_membership : Invitation → Str → Act Tables Membership
invitation_membership invitation user_id db =
    let role =
      first_where (λ r. same r.id invitation.role_id && same r.tenant_id invitation.tenant_id)
        db.roles in
    (
      invited invitation user_id (first_where (λ t. same t.id invitation.tenant_id) db.tenants)
          role,
      db,
    )

abbrev pub of_user : Str → Str → MembershipRow → Bool
of_user tenant_id user_id row = same row.tenant_id tenant_id && same row.user_id user_id

abbrev pub reactivated : Str → ℕ → MembershipRow → MembershipRow
reactivated role_id now row = record row {
  role_id = role_id;
  status = active_status;
  revision = row.revision + 1;
  updated_at = now;
}

-- `UPDATE tenant_memberships …` of a row that was found; the source reads an update of no row as a
-- conflict, which a status other than the two gives.
unfoldable pub reactivate : Membership → MembershipRow → Act Tables Membership
reactivate membership row db =
    if same row.status inactive_status
    then (
      ok (record membership {
        id = row.id;
        revision = row.revision + 1;
        created_at = row.created_at;
        updated_at = db.now;
      }),
      record db {
        memberships =
            update_where (of_user membership.tenant.id membership.user_id)
              (reactivated membership.role_id db.now) db.memberships;
      },
    )
    else (err (domain conflict), db)

abbrev pub new_row : Membership → Str → ℕ → MembershipRow
new_row membership id now = record {
  id = id;
  tenant_id = membership.tenant.id;
  user_id = membership.user_id;
  role_id = membership.role_id;
  status = membership.status;
  revision = 1;
  created_at = now;
  updated_at = now;
}

unfoldable pub insert_membership : Membership → Result Str → Act Tables Membership
insert_membership membership uuid = do
  id ← lift uuid
  λ db. (
    ok (record membership { id = id; revision = 1 }),
    record db { memberships = db.memberships ++ new_row membership id db.now ∷ [] },
  )

-- The `switch` over the membership that the user has already.
unfoldable pub membership_for :
    Membership → Result Str → Option MembershipRow → Act Tables Membership
unfolding reactivate insert_membership
membership_for membership uuid none = insert_membership membership uuid
membership_for membership uuid (some row) = do
  require_that (not (same row.status active_status)) conflict
  reactivate membership row

unfoldable pub create_membership : Invitation → Str → Result Str → Act Tables Membership
unfolding invitation_membership membership_for
create_membership invitation user_id uuid = do
  membership ← invitation_membership invitation user_id
  existing ← λ db. (ok (first_where (of_user invitation.tenant_id user_id) db.memberships), db)
  membership_for membership uuid existing
