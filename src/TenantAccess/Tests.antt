-- ===== src/TenantAccess/Tests.antt =====
-- A tenant whose one member may manage roles.
use clinks.Prelude.{ℕ, ◌+◌, ◌≡◌, refl, [], ◌∷◌, some}
use clinks.Text.{Str, str, same, contains, trim_space, valid_string, rune_count, ranges}
use clinks.Errors.{ok, err, domain, unauthorized, conflict}
use clinks.Exec.{Act}
use clinks.Domain.{
  Tenant, Role, Membership, Session, is_protected, active_status, global_user, custom_kind,
  administrator_kind,
}
use clinks.Validation.{valid_uuid, normalize_role_name}
use clinks.Permission.{role_manage, is_valid, valid_permissions}
use clinks.TenantAccess.{TenantAccess, active_tenant, require, update_role, delete_role}
use clinks.TenantAccess.Guard.{
  updates_role, revokes_invitation, perform, Authorized, perform-Authorized, perform_denied,
}
use clinks.TenantAccess.Roles.{RoleChange, update_role-RoleChange}

abbrev home_id : Str
home_id = str "00000000-0000-0000-0000-00000000000a"

abbrev role_id : Str
role_id = str "00000000-0000-0000-0000-00000000000b"

abbrev user_id : Str
user_id = str "00000000-0000-0000-0000-00000000000c"

abbrev home : Tenant
home = record { id = home_id; name = str "Home"; revision = 1; created_at = 0; updated_at = 0 }

abbrev role_of : Str → Role
role_of kind = record {
  id = role_id;
  tenant_id = [];
  name = str "Editor";
  kind = kind;
  permissions = role_manage ∷ [];
  revision = 1;
  created_at = 0;
  updated_at = 0;
}

abbrev member : Membership
member = record {
  id = str "m1";
  user_id = user_id;
  user_email = str "ada@x.ch";
  tenant = home;
  role_id = role_id;
  role = role_of custom_kind;
  status = active_status;
  revision = 1;
  created_at = 0;
  updated_at = 0;
}

abbrev session : Session
session = record {
  token = [];
  user = record {
    id = user_id;
    email = str "ada@x.ch";
    global_role = global_user;
    locale = str "de";
    session_version = 1;
  };
  active_tenant = some home;
  memberships = member ∷ [];
}

abbrev answer : {A : Type 0} → A → Act ℕ A
answer a w = (ok a, w + 1)

-- Every role of the store has the kind given.
abbrev access : Str → TenantAccess ℕ
access kind = record {
  tenants = record { update_tenant = λ tenant actor. answer tenant };
  memberships = record {
    find_active_membership = λ user tenant. answer member;
    list_memberships = λ tenant filter. answer (record { items = []; next_cursor = [] });
    update_membership = λ membership actor. answer membership;
  };
  roles = record {
    list_roles = λ tenant filter. answer (record { items = []; next_cursor = [] });
    find_role = λ tenant id. answer (role_of kind);
    permissions_for_role = λ tenant id. answer (role_manage ∷ []);
    create_role = λ role actor. answer role;
    update_role = λ role actor. answer role;
    delete_role = λ tenant id revision actor. answer tt;
  };
  invitations = record {
    list_tenant_invitations = λ tenant filter. answer (record { items = []; next_cursor = [] });
    revoke_tenant_invitation = λ tenant id actor. answer tt;
  };
}

perform-Authorized_example : Authorized (access custom_kind) session role_manage 0
unfolding update_role active_tenant require valid_uuid ranges normalize_role_name trim_space
    valid_string rune_count valid_permissions is_valid same contains is_protected
perform-Authorized_example =
    perform-Authorized (access custom_kind) (updates_role (role_of custom_kind)) session 0 refl

perform_denied_example :
    perform (access custom_kind) (revokes_invitation role_id) session 0
    ≡ (err (domain unauthorized), 2)
unfolding active_tenant valid_uuid ranges same contains
perform_denied_example =
    perform_denied (access custom_kind) session 0 home member (role_manage ∷ []) refl refl refl
      (revokes_invitation role_id) refl

update_role-RoleChange_example :
    RoleChange
      (access custom_kind)
      session
      (role_of custom_kind)
      0
      (record (role_of custom_kind) { tenant_id = home_id })
unfolding update_role active_tenant require valid_uuid ranges normalize_role_name trim_space
    valid_string rune_count valid_permissions is_valid same contains is_protected
update_role-RoleChange_example =
    update_role-RoleChange (access custom_kind) session (role_of custom_kind) 0 refl

-- An administrator role is not deleted.
delete_protected :
    delete_role (access administrator_kind) session role_id 1 0 ≡ (err (domain conflict), 3)
unfolding delete_role active_tenant require valid_uuid ranges same contains is_protected
delete_protected = refl
