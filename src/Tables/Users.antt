-- ===== src/Tables/Users.antt =====
-- server/postgres/users.go and external_identities.go: the users and what they sign in with.
use clinks.Prelude.{ℕ, Bool, ◌&&◌, ◌||◌, [], ◌∷◌, ◌++◌, Option, none, some, if◌then◌else◌}
use clinks.Text.{Str, str, same}
use clinks.Errors.{
  invalid_credentials, email_taken, conflict, domain, plain, wrap, Err, Result, ok, err,
}
use clinks.Exec.{Act, pure, lift, require_that, ◌>>=◌, ◌>>◌}
use clinks.Sql.{update_where, first_where, any_where, transaction}
use clinks.Domain.{User, ExternalIdentity, is_super_administrator, global_super_administrator}
use clinks.Tables.{Tables, UserRow, audit, rotated}

-- pgx does not scan a null into a string.
abbrev pub null_password : Err
null_password = wrap (str "find user by email") (plain (str "cannot scan NULL into *string"))

abbrev with_password : UserRow → Option Str → Result (User × Str)
with_password row none = err null_password
with_password row (some hash) = ok (row.user, hash)

abbrev by_email : Option UserRow → Result (User × Str)
by_email none = err (domain invalid_credentials)
by_email (some row) = with_password row row.password_hash

unfoldable pub find_by_email : Str → Act Tables (User × Str)
find_by_email email =
    transaction (λ db. (by_email (first_where (λ u. same u.user.email email) db.users), db))

abbrev user_or : Option UserRow → Err → Result User
user_or none e = err e
user_or (some row) e = ok row.user

abbrev pub at_id : Str → UserRow → Bool
at_id id row = same row.user.id id

unfoldable pub find_by_id : Str → Act Tables User
find_by_id id =
    transaction (λ db. (user_or (first_where (at_id id) db.users) (domain invalid_credentials), db))

-- `UPDATE users SET session_version = session_version + 1 … RETURNING`: the row as it is afterwards.
-- `missing` is what the caller makes of `pgx.ErrNoRows`.
unfoldable pub rotate : Err → Str → Act Tables User
rotate missing id db = elim (first_where (at_id id) db.users) [
  | none ↦ (err missing, db)
  | some row ↦
      (ok ((rotated row).user), record db { users = update_where (at_id id) rotated db.users })
]

unfoldable pub invalidate_session : Str → Result Str → Act Tables (Unit {0})
invalidate_session id event_id = transaction do
  user ← rotate (domain invalid_credentials) id
  audit event_id (some id) none (str "session.logout") user.email

unfoldable pub rotate_tenant_session : Str → Str → Str → Result Str → Act Tables ℕ
rotate_tenant_session id tenant_id tenant_name event_id = transaction do
  user ← rotate (domain invalid_credentials) id
  audit event_id (some id) (some tenant_id) (str "tenant.switch") tenant_name
  pure user.session_version

-- `INSERT INTO users` under the constraint `users_email_unique`, with `mapIdentityDatabaseError`.
unfoldable pub insert_user : User → Option Str → Act Tables (Unit {0})
insert_user user password_hash db =
    if any_where (λ u. same u.user.email user.email) db.users
    then (err (domain email_taken), db)
    else (
      ok tt,
      record db {
        users = db.users ++ (record { user = user; password_hash = password_hash }) ∷ [];
      },
    )

pub record SuperAdminBootstrap : Type 0 where
  pub email : Str
  pub password_hash : Str
  pub locale : Str

abbrev bootstrap_user : SuperAdminBootstrap → Str → User
bootstrap_user bootstrap id = record {
  id = id;
  email = bootstrap.email;
  global_role = global_super_administrator;
  locale = bootstrap.locale;
  session_version = 1;
}

abbrev insert_bootstrap : SuperAdminBootstrap → Result Str → Act Tables (Unit {0})
insert_bootstrap bootstrap uuid = do
  id ← lift uuid
  insert_user (bootstrap_user bootstrap id) (some bootstrap.password_hash)

-- The `switch` over what was found under the address.
unfoldable pub ensure_found :
    SuperAdminBootstrap → Result Str → Option UserRow → Act Tables (Unit {0})
unfolding insert_user
ensure_found bootstrap uuid none = insert_bootstrap bootstrap uuid
ensure_found bootstrap uuid (some row) =
    require_that (is_super_administrator row.user.global_role) email_taken

unfoldable pub ensure_super_admin : SuperAdminBootstrap → Result Str → Act Tables (Unit {0})
unfolding ensure_found
ensure_super_admin bootstrap uuid = transaction (λ db.
    ensure_found bootstrap uuid (first_where (λ u. same u.user.email bootstrap.email) db.users) db)

abbrev linked_user : Tables → Option ExternalIdentity → Option UserRow
linked_user db none = none
linked_user db (some identity) = first_where (at_id identity.user_id) db.users

-- `FindUser`.
unfoldable pub find_user : Str → Str → Act Tables User
find_user issuer subject = transaction (λ db.
    let linked = first_where (λ i. same i.issuer issuer && same i.subject subject) db.identities in
    (user_or (linked_user db linked) (domain invalid_credentials), db))

-- The primary key (issuer, subject) and the unique pair (issuer, user_id).
abbrev pub taken : ExternalIdentity → ExternalIdentity → Bool
taken new old =
    same old.issuer new.issuer && (same old.subject new.subject || same old.user_id new.user_id)

-- `INSERT INTO external_identities`, with `constraintConflict`.
unfoldable pub insert_identity : Str → ExternalIdentity → Act Tables (Unit {0})
insert_identity user_id identity db =
    let row = record identity { user_id = user_id } in
    if any_where (taken row) db.identities
    then (err (domain conflict), db)
    else (ok tt, record db { identities = db.identities ++ row ∷ [] })

unfoldable pub link_with_audit :
    Str → ExternalIdentity → Option Str → Result Str → Act Tables (Unit {0})
unfolding insert_identity
link_with_audit user_id identity tenant_id event_id = transaction do
  insert_identity user_id identity
  audit event_id (some user_id) tenant_id (str "identity.oidc_linked") identity.issuer
