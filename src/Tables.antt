-- ===== src/Tables.antt =====
-- The tables of migrations/000001_schema.sql that the stores of tenants, users, memberships and
-- invitations share, the joins that read a membership, and what every store method uses. `tenant_roles`
-- is kept with the permissions of each role, sorted as they are read. What `uuid.NewV7` answers is an
-- argument of each method; `now` is the clock of the database. Statements fail only as written here.
pub mod Audits
pub mod Members
pub mod Sample
pub mod Users
pub mod Joining
pub mod Roles
pub mod Tenants
pub mod Invitations
use clinks.Prelude.{ℕ, ◌+◌, Bool, ◌&&◌, List, [], ◌∷◌, ◌++◌, Option, none, some, if◌then◌else◌}
use clinks.Text.{Str, str, same}
use clinks.Errors.{Err, plain, wrap, validation, Result, ok, err}
use clinks.Exec.{Act, require_that, ◌>>=◌, ◌>>◌}
use clinks.Validation.{valid_uuid}
use clinks.Sql.{any_where, first_where, update_where, transaction}
use clinks.Domain.{
  Tenant, Role, User, Membership, Invitation, ExternalIdentity, AuditEvent, administrator_kind,
  active_status,
}

-- A null `password_hash` belongs to a user who came by an external identity.
pub record UserRow : Type 0 where
  pub user : User
  pub password_hash : Option Str

pub record MembershipRow : Type 0 where
  pub id : Str
  pub tenant_id : Str
  pub user_id : Str
  pub role_id : Str
  pub status : Str
  pub revision : ℕ
  pub created_at : ℕ
  pub updated_at : ℕ

pub record Tables : Type 0 where
  pub tenants : List Tenant
  pub users : List UserRow
  pub roles : List Role
  pub memberships : List MembershipRow
  pub invitations : List Invitation
  pub identities : List ExternalIdentity
  pub audits : List AuditEvent
  pub now : ℕ

-- `WithTenantTx`.
abbrev pub tenant_transaction : {A : Type 0} → Str → Act Tables A → Act Tables A
tenant_transaction tenant_id m = do require_that (valid_uuid tenant_id) validation; transaction m

-- The references of an audit event, of which a null one is to nothing.
abbrev pub knows_user : Tables → Option Str → Bool
knows_user db none = Bool.true
knows_user db (some id) = any_where (λ (u : UserRow). same u.user.id id) db.users

abbrev pub knows_tenant : Tables → Option Str → Bool
knows_tenant db none = Bool.true
knows_tenant db (some id) = any_where (λ (t : Tenant). same t.id id) db.tenants

abbrev pub audit_refused : Err
audit_refused = wrap (str "append audit event") (plain (str "foreign key constraint"))

-- `insertAuditEvent`, with what `newUUID` answered for the identifier of the event.
abbrev pub audit : Result Str → Option Str → Option Str → Str → Str → Act Tables (Unit {0})
audit (err e) actor tenant action target db = (err e, db)
audit (ok id) actor tenant action target db =
    if knows_user db actor && knows_tenant db tenant
    then (
      ok tt,
      record db {
        audits =
            db.audits
            ++ (record {
              occurred_at = db.now;
              actor_id = actor;
              tenant_id = tenant;
              action = action;
              target = target;
            })
              ∷ [];
      },
    )
    else (err audit_refused, db)

abbrev pub role_of : Tables → Str → Option Role
role_of db role_id = first_where (λ role. same role.id role_id) db.roles

abbrev pub kind_is : Str → Option Role → Bool
kind_is kind none = Bool.false
kind_is kind (some role) = same role.kind kind

-- An active membership of the tenant with the role of an administrator.
abbrev pub administers : Tables → Str → MembershipRow → Bool
administers db tenant_id row =
    same row.tenant_id tenant_id
    && same row.status active_status
    && kind_is administrator_kind (role_of db row.role_id)

abbrev joined_membership :
    MembershipRow → Option Tenant → Option Role → Option UserRow → Option Membership
joined_membership row (some tenant) (some role) (some user) = some (record {
  id = row.id;
  user_id = row.user_id;
  user_email = user.user.email;
  tenant = record tenant { created_at = 0; updated_at = 0 };
  role_id = role.id;
  role = role;
  status = row.status;
  revision = row.revision;
  created_at = row.created_at;
  updated_at = row.updated_at;
})
joined_membership row _ _ _ = none

-- `membershipQuery` at one row, as `scanMembershipValue` reads it.
abbrev pub view : Tables → MembershipRow → Option Membership
view db row =
    joined_membership row (first_where (λ t. same t.id row.tenant_id) db.tenants)
      (role_of db row.role_id) (first_where (λ u. same u.user.id row.user_id) db.users)

-- `session_version = session_version + 1`.
abbrev pub rotated : UserRow → UserRow
rotated row = record row {
  user = record (row.user) { session_version = row.user.session_version + 1 };
}

-- `UPDATE users SET session_version = session_version + 1 … WHERE id = $1`.
abbrev pub invalidate_user_session : Str → Act Tables (Unit {0})
invalidate_user_session user_id db =
    (ok tt, record db { users = update_where (λ u. same u.user.id user_id) rotated db.users })
