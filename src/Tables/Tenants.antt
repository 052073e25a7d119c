-- ===== src/Tables/Tenants.antt =====
-- server/postgres/tenants.go (less its pages), tenant_provisioner.go and the default roles of roles.go.
pub mod Defaults
pub mod Owned
pub mod Tests
use clinks.Prelude.{
  ℕ, ◌+◌, ◌==◌, Bool, ◌&&◌, ◌||◌, not, List, [], ◌∷◌, ◌++◌, Option, none, some, if◌then◌else◌,
}
use clinks.Text.{Str, str, same, rune_count, trim_space}
use clinks.Errors.{conflict, domain, plain, wrap, Err, Result, ok, err}
use clinks.Exec.{Act, pure, lift, ◌>>=◌, ◌>>◌}
use clinks.Permission.{all_permissions, default_user_permissions}
use clinks.Domain.{
  Tenant, Role, User, Membership, Session, TenantOwnerRegistration, administrator_kind, user_kind,
  global_user, active_status,
}
use clinks.Sql.{btrim, char_length_between, any_where, first_where, update_where, transaction}
use clinks.Tables.{Tables, MembershipRow, tenant_transaction, audit}
use clinks.Tables.Users.{insert_user}
use clinks.Tables.Roles.{inserted, same_name, insert_role_permissions}

-- What `newUUID` answers while a tenant is made.
pub record TenantUuids : Type 0 where
  pub tenant : Result Str
  pub user : Result Str
  pub membership : Result Str
  pub administrator : Result Str
  pub user_role : Result Str
  pub event : Result Str

abbrev refused : Str → Str → Err
refused what why = wrap what (plain why)

-- `CHECK (char_length(btrim(name)) BETWEEN 2 AND 120)`.
abbrev pub tenant_name_fits : Str → Bool
tenant_name_fits name = char_length_between 2 120 (btrim name)

abbrev pub insert_tenant : Tenant → Act Tables (Unit {0})
insert_tenant tenant db =
    if not (tenant_name_fits tenant.name) || any_where (λ t. same t.id tenant.id) db.tenants
    then (err (refused (str "create tenant") (str "constraint")), db)
    else (
      ok tt,
      record db {
        tenants = db.tenants ++ record tenant { created_at = db.now; updated_at = db.now } ∷ [];
      },
    )

abbrev pub new_role : Str → Str → Str → List Str → Str → Role
new_role tenant_id name kind permissions id = record {
  id = id;
  tenant_id = tenant_id;
  name = name;
  kind = kind;
  permissions = permissions;
  revision = 1;
  created_at = 0;
  updated_at = 0;
}

abbrev pub new_tenant : Str → Str → Tenant
new_tenant id name = record {
  id = id;
  name = trim_space name;
  revision = 1;
  created_at = 0;
  updated_at = 0;
}

abbrev pub owner_user : TenantOwnerRegistration → Str → User
owner_user registration id = record {
  id = id;
  email = registration.email;
  global_role = global_user;
  locale = registration.locale;
  session_version = 1;
}

abbrev pub owner_row : ℕ → Membership → MembershipRow
owner_row now membership = record {
  id = membership.id;
  tenant_id = membership.tenant.id;
  user_id = membership.user_id;
  role_id = membership.role_id;
  status = membership.status;
  revision = 1;
  created_at = now;
  updated_at = now;
}

abbrev pub insert_owner_membership : Membership → Act Tables (Unit {0})
insert_owner_membership membership db =
    if any_where (λ m. same m.id membership.id) db.memberships
      || any_where
          (λ (m : MembershipRow).
            same m.tenant_id membership.tenant.id && same m.user_id membership.user_id)
          db.memberships
    then (err (refused (str "create owner membership") (str "unique constraint")), db)
    else (ok tt, record db { memberships = db.memberships ++ owner_row db.now membership ∷ [] })

abbrev pub owner_membership : Tenant → User → Str → Role → Membership
owner_membership tenant user id role = record {
  id = id;
  user_id = user.id;
  user_email = [];
  tenant = tenant;
  role_id = role.id;
  role = role;
  status = active_status;
  revision = 1;
  created_at = 0;
  updated_at = 0;
}

-- `fmt.Errorf("provision tenant owner: %w", err)`.
abbrev pub wrap_provision : {A : Type 0} → Result A → Result A
wrap_provision (ok a) = ok a
wrap_provision (err e) = err (wrap (str "provision tenant owner") e)

abbrev pub wrapped : {A : Type 0} → Act Tables A → Act Tables A
wrapped m db = let (r, db') = m db in (wrap_provision r, db')

module _ (lower : Str → Str) where
  -- `insertRole` of a default role: a tenant has one role of each protected kind.
  abbrev pub insert_default_role : Role → Act Tables (Unit {0})
  insert_default_role role db =
      if any_where (λ r. same r.id role.id) db.roles
        || any_where (same_name lower role.tenant_id role.name) db.roles
        || any_where (λ r. same r.tenant_id role.tenant_id && same r.kind role.kind) db.roles
        || not (any_where (λ t. same t.id role.tenant_id) db.tenants)
      then (err (refused (str "insert role") (str "constraint")), db)
      else (ok tt, record db { roles = db.roles ++ inserted db.now role ∷ [] })

  -- The body of the loop of `createDefaultRoles`.
  abbrev pub default_role : Role → Act Tables (Unit {0})
  default_role role =
      insert_default_role role >> insert_role_permissions role.tenant_id role.id [] role.permissions

  -- It returns the role of the administrator; the callers use no other.
  abbrev pub create_default_roles : Str → Result Str → Result Str → Act Tables Role
  create_default_roles tenant_id administrator_id user_id = do
    a ← lift administrator_id
    u ← lift user_id
    let administrator =
        new_role tenant_id (str "Administrator") administrator_kind all_permissions a
    default_role administrator
    default_role (new_role tenant_id (str "User") user_kind default_user_permissions u)
    pure administrator

  abbrev pub creating : Tenant → Str → TenantUuids → Act Tables Tenant
  creating tenant actor_id uuids = do
    insert_tenant tenant
    create_default_roles tenant.id uuids.administrator uuids.user_role
    audit uuids.event (some actor_id) (some tenant.id) (str "tenant.created") tenant.name
    pure tenant

  -- `Create`.
  unfoldable pub create_tenant : Str → Str → TenantUuids → Act Tables Tenant
  create_tenant name actor_id uuids = do
    id ← lift uuids.tenant
    transaction (creating (new_tenant id name) actor_id uuids)

  -- `provisionTenantOwner`, with the membership that it completes.
  abbrev pub provisioning : Tenant → User → Str → Str → TenantUuids → Act Tables Membership
  provisioning tenant user membership_id password_hash uuids = do
    insert_tenant tenant
    insert_user user (some password_hash)
    administrator ← create_default_roles tenant.id uuids.administrator uuids.user_role
    let membership = owner_membership tenant user membership_id administrator
    insert_owner_membership membership
    audit uuids.event (some user.id) (some tenant.id) (str "tenant.registered") tenant.name
    pure membership

  unfoldable pub create_tenant_owner : TenantOwnerRegistration → TenantUuids → Act Tables Session
  create_tenant_owner registration uuids = do
    tenant_id ← lift uuids.tenant
    user_id ← lift uuids.user
    membership_id ← lift uuids.membership
    let tenant = new_tenant tenant_id registration.tenant_name
    let user = owner_user registration user_id
    membership ←
        wrapped
          (transaction (provisioning tenant user membership_id registration.password_hash uuids))
    pure (record {
      token = [];
      user = user;
      active_tenant = some tenant;
      memberships = membership ∷ [];
    })

abbrev pub changed_tenant : ℕ → Str → Tenant → Tenant
changed_tenant now name t = record t { name = name; revision = t.revision + 1; updated_at = now }

abbrev pub rename_tenant : Tenant → Act Tables (Unit {0})
rename_tenant tenant db =
    let at = λ (t : Tenant). same t.id tenant.id && t.revision == tenant.revision in
    if not (any_where at db.tenants)
    then (err (domain conflict), db)
    else if not (tenant_name_fits tenant.name)
    then (err (refused (str "update tenant") (str "check constraint")), db)
    else (
      ok tt,
      record db { tenants = update_where at (changed_tenant db.now tenant.name) db.tenants },
    )

abbrev pub update_tenant_tx : Tenant → Str → Result Str → Act Tables Tenant
update_tenant_tx tenant actor_id event_id = do
  rename_tenant tenant
  audit event_id (some actor_id) (some tenant.id) (str "tenant.updated") tenant.name
  pure (record tenant { revision = tenant.revision + 1 })

unfoldable pub update_system : Tenant → Str → Result Str → Act Tables Tenant
update_system tenant actor_id event_id = transaction (update_tenant_tx tenant actor_id event_id)

unfoldable pub update_tenant : Tenant → Str → Result Str → Act Tables Tenant
update_tenant tenant actor_id event_id =
    tenant_transaction tenant.id (update_tenant_tx tenant actor_id event_id)
