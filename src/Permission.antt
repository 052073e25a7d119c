-- ===== src/Permission.antt =====
-- permission.go: the permissions of a tenant role, and the validation of a list of them.
pub mod Valid
pub mod Tests
use clinks.Prelude.{Bool, true, false, not, List, [], ◌∷◌, if◌then◌else◌}
use clinks.Text.{Str, str, contains}

abbrev pub tenant_read : Str
tenant_read = str "tenant.read"

abbrev pub tenant_manage : Str
tenant_manage = str "tenant.manage"

abbrev pub user_read : Str
user_read = str "user.read"

abbrev pub user_manage : Str
user_manage = str "user.manage"

abbrev pub project_read : Str
project_read = str "project.read"

abbrev pub project_create : Str
project_create = str "project.create"

abbrev pub project_edit : Str
project_edit = str "project.edit"

abbrev pub project_delete : Str
project_delete = str "project.delete"

abbrev pub role_read : Str
role_read = str "role.read"

abbrev pub role_manage : Str
role_manage = str "role.manage"

-- `AllPermissions`.
unfoldable pub all_permissions : List Str
all_permissions =
    tenant_read ∷ tenant_manage ∷ user_read ∷ user_manage ∷ project_read ∷ project_create
    ∷ project_edit ∷ project_delete ∷ role_read ∷ role_manage ∷ []

-- `Permission.IsValid`: the `switch` over the same constants.
unfoldable pub is_valid : Str → Bool
unfolding contains
is_valid permission =
    contains
      (tenant_read ∷ tenant_manage ∷ user_read ∷ user_manage ∷ project_read ∷ project_create
        ∷ project_edit ∷ project_delete ∷ role_read ∷ role_manage ∷ [])
      permission

-- `DefaultUserPermissions`.
unfoldable pub default_user_permissions : List Str
default_user_permissions = tenant_read ∷ user_read ∷ project_read ∷ []

-- The loop of `ValidPermissions`, with the set of the permissions seen.
valid_loop : List Str → List Str → Bool
unfolding contains
valid_loop seen [] = true
valid_loop seen (permission ∷ rest) =
    let later = valid_loop (permission ∷ seen) rest in
    if not (is_valid permission) then false else if contains seen permission then false else later

unfoldable pub valid_permissions : List Str → Bool
unfolding valid_loop
valid_permissions permissions = valid_loop [] permissions
