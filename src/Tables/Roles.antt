-- ===== src/Tables/Roles.antt =====
-- server/postgres/roles.go: the roles of a tenant, less their pages and the default roles. `lower` of
-- the database is a parameter; permissions are ordered by their bytes.
pub mod Leads
pub mod Kept
pub mod Deleted
pub mod Tests
use clinks.Prelude.{
  ℕ, ◌+◌, ◌==◌, Bool, ◌&&◌, ◌||◌, not, List, [], ◌∷◌, ◌++◌, Option, none, some, if◌then◌else◌,
}
use clinks.Text.{Str, str, same, contains, precedes, is_empty, rune_count, trim_space}
use clinks.Errors.{conflict, validation, domain, plain, wrap, role_not_found, Err, Result, ok, err}
use clinks.Exec.{Act, require_that, pure, lift, ◌>>=◌, ◌>>◌}
use clinks.Permission.{is_valid}
use clinks.Domain.{Role, Invitation, custom_kind}
use clinks.Sql.{
  btrim, char_length_between, any_where, first_where, update_where, delete_where, row_or,
}
use clinks.Tables.{Tables, MembershipRow, tenant_transaction, audit}

abbrev pub role_at : Str → Str → Role → Bool
role_at tenant_id id r = same r.id id && same r.tenant_id tenant_id

unfoldable pub find_role_tx : Str → Str → Act Tables Role
find_role_tx tenant_id id db =
    (row_or (first_where (role_at tenant_id id) db.roles) (domain role_not_found), db)

unfoldable pub find_role : Str → Str → Act Tables Role
unfolding find_role_tx
find_role tenant_id id = tenant_transaction tenant_id (find_role_tx tenant_id id)

unfoldable pub permissions_for_role : Str → Str → Act Tables (List Str)
unfolding find_role
permissions_for_role tenant_id id = do role ← find_role tenant_id id; pure role.permissions

-- `array_agg(… ORDER BY …)` after one more permission was inserted.
unfoldable pub insert_ordered : Str → List Str → List Str
insert_ordered p [] = p ∷ []
insert_ordered p (x ∷ xs) = if precedes p x then p ∷ x ∷ xs else x ∷ insert_ordered p xs

abbrev pub add_permission : Str → Str → Str → Act Tables (Unit {0})
add_permission tenant_id id p db = (
  ok tt,
  record db {
    roles =
        update_where (role_at tenant_id id)
          (λ r. record r { permissions = insert_ordered p r.permissions }) db.roles;
  },
)

-- The loop of `insertRolePermissions`, with the permissions it has seen.
unfoldable pub insert_role_permissions : Str → Str → List Str → List Str → Act Tables (Unit {0})
unfolding insert_ordered
insert_role_permissions tenant_id id seen [] = pure tt
insert_role_permissions tenant_id id seen (p ∷ ps) =
    let again = contains seen p in
    let rest = insert_role_permissions tenant_id id (if again then seen else p ∷ seen) ps in
    (require_that (is_valid p) validation
      >> (if again then pure tt else add_permission tenant_id id p))
    >> rest

abbrev check_violation : Str → Err
check_violation what = wrap what (plain (str "check constraint"))

-- `CHECK (char_length(btrim(name)) BETWEEN 2 AND 80)`.
abbrev pub name_fits : Str → Bool
name_fits name = char_length_between 2 80 (btrim name)

abbrev pub custom_at : Str → Str → ℕ → Role → Bool
custom_at tenant_id id revision r =
    role_at tenant_id id r && r.revision == revision && same r.kind custom_kind

abbrev pub inserted : ℕ → Role → Role
inserted now role = record role {
  permissions = [];
  revision = 1;
  created_at = now;
  updated_at = now;
}

abbrev pub renamed : ℕ → Str → Role → Role
renamed now name r = record r { name = name; revision = r.revision + 1; updated_at = now }

-- `DELETE FROM tenant_role_permissions`.
abbrev pub clear_permissions : Str → Str → Act Tables (Unit {0})
clear_permissions tenant_id id db = (
  ok tt,
  record db {
    roles = update_where (role_at tenant_id id) (λ r. record r { permissions = [] }) db.roles;
  },
)

abbrev pub numbered : Role → Result Str → Result Role
numbered role (ok id) = ok (if is_empty role.id then record role { id = id } else role)
numbered role (err e) = if is_empty role.id then err e else ok role

-- The references to a role from memberships and invitations.
abbrev pub referred : Tables → Str → Str → Bool
referred db tenant_id id =
    any_where (λ (m : MembershipRow). same m.role_id id && same m.tenant_id tenant_id)
      db.memberships
    || any_where (λ (i : Invitation). same i.role_id id && same i.tenant_id tenant_id)
        db.invitations

module _ (lower : Str → Str) where
  -- `tenant_roles_name_unique`.
  abbrev pub same_name : Str → Str → Role → Bool
  same_name tenant_id name r = same r.tenant_id tenant_id && same (lower r.name) (lower name)

  -- `insertRole` of a custom role, with `constraintConflict`.
  abbrev pub insert_role : Role → Act Tables (Unit {0})
  insert_role role db =
      if not (name_fits role.name)
      then (err (check_violation (str "insert role")), db)
      else if any_where (λ r. same r.id role.id) db.roles
          || any_where (same_name role.tenant_id role.name) db.roles
          || not (any_where (λ t. same t.id role.tenant_id) db.tenants)
      then (err (domain conflict), db)
      else (ok tt, record db { roles = db.roles ++ inserted db.now role ∷ [] })

  abbrev pub creating : Role → Str → Result Str → Act Tables Role
  creating role actor_id event_id = do
    insert_role role
    insert_role_permissions role.tenant_id role.id [] role.permissions
    created ← find_role_tx role.tenant_id role.id
    audit event_id (some actor_id) (some created.tenant_id) (str "role.created") created.name
    pure created

  -- `uuid` is what `newUUID` answers for the role.
  unfoldable pub create_role : Role → Str → Result Str → Result Str → Act Tables Role
  unfolding insert_role_permissions find_role_tx
  create_role role actor_id uuid event_id = do
    role' ← lift (numbered (record role { name = trim_space role.name; kind = custom_kind }) uuid)
    tenant_transaction role'.tenant_id (creating role' actor_id event_id)

  -- `UPDATE tenant_roles`, with `constraintConflict`.
  abbrev pub rename_role : Role → Act Tables (Unit {0})
  rename_role role db =
      let at = custom_at role.tenant_id role.id role.revision in
      if not (any_where at db.roles)
      then (err (domain conflict), db)
      else if not (name_fits role.name)
      then (err (wrap (str "update role") (plain (str "check constraint"))), db)
      else if any_where (λ r. same_name role.tenant_id role.name r && not (same r.id role.id))
          db.roles
      then (err (domain conflict), db)
      else (ok tt, record db { roles = update_where at (renamed db.now role.name) db.roles })

  abbrev pub updating : Role → Str → Result Str → Act Tables Role
  updating role actor_id event_id = do
    rename_role role
    clear_permissions role.tenant_id role.id
    insert_role_permissions role.tenant_id role.id [] role.permissions
    updated ← find_role_tx role.tenant_id role.id
    audit event_id (some actor_id) (some updated.tenant_id) (str "role.updated") updated.name
    pure updated

  unfoldable pub update_role : Role → Str → Result Str → Act Tables Role
  unfolding insert_role_permissions find_role_tx
  update_role role actor_id event_id =
      tenant_transaction role.tenant_id
        (updating (record role { name = trim_space role.name }) actor_id event_id)

-- `DELETE FROM tenant_roles`, whose permissions go with it.
abbrev pub remove_role : Str → Str → ℕ → Act Tables (Unit {0})
remove_role tenant_id id revision db =
    let at = custom_at tenant_id id revision in
    if not (any_where at db.roles) || referred db tenant_id id
    then (err (domain conflict), db)
    else (ok tt, record db { roles = delete_where at db.roles })

abbrev pub deleting : Str → Str → ℕ → Str → Result Str → Act Tables (Unit {0})
deleting tenant_id id revision actor_id event_id = do
  remove_role tenant_id id revision
  audit event_id (some actor_id) (some tenant_id) (str "role.deleted") id

unfoldable pub delete_role : Str → Str → ℕ → Str → Result Str → Act Tables (Unit {0})
delete_role tenant_id id revision actor_id event_id =
    tenant_transaction tenant_id (deleting tenant_id id revision actor_id event_id)
