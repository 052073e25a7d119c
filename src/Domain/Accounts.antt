-- ===== src/Domain/Accounts.antt =====
-- Tenants, roles, users, memberships, sessions and audit events.
use clinks.Prelude.{ℕ, Bool, ◌&&◌, ◌||◌, not, List, Option}
use clinks.Text.{Str, str, same, is_empty, trim_space}
use clinks.Validation.{valid_uuid}

abbrev pub administrator_kind : Str
administrator_kind = str "administrator"

abbrev pub user_kind : Str
user_kind = str "user"

abbrev pub custom_kind : Str
custom_kind = str "custom"

abbrev pub active_status : Str
active_status = str "active"

abbrev pub inactive_status : Str
inactive_status = str "inactive"

abbrev pub global_user : Str
global_user = str "user"

abbrev pub global_super_administrator : Str
global_super_administrator = str "super_administrator"

pub record Tenant : Type 0 where
  pub id : Str
  pub name : Str
  pub revision : ℕ
  pub created_at : ℕ
  pub updated_at : ℕ

pub record TenantOwnerRegistration : Type 0 where
  pub email : Str
  pub password_hash : Str
  pub locale : Str
  pub tenant_name : Str

pub record Role : Type 0 where
  pub id : Str
  pub tenant_id : Str
  pub name : Str
  pub kind : Str
  pub permissions : List Str
  pub revision : ℕ
  pub created_at : ℕ
  pub updated_at : ℕ

pub record User : Type 0 where
  pub id : Str
  pub email : Str
  pub global_role : Str
  pub locale : Str
  pub session_version : ℕ

pub record Membership : Type 0 where
  pub id : Str
  pub user_id : Str
  pub user_email : Str
  pub tenant : Tenant
  pub role_id : Str
  pub role : Role
  pub status : Str
  pub revision : ℕ
  pub created_at : ℕ
  pub updated_at : ℕ

pub record Session : Type 0 where
  pub token : Str
  pub user : User
  pub active_tenant : Option Tenant
  pub memberships : List Membership

pub record SessionClaim : Type 0 where
  pub user_id : Str
  pub active_tenant_id : Option Str
  pub session_version : ℕ

pub record ExternalIdentity : Type 0 where
  pub issuer : Str
  pub subject : Str
  pub email : Str
  pub user_id : Str

pub record AuditEvent : Type 0 where
  pub occurred_at : ℕ
  pub actor_id : Option Str
  pub tenant_id : Option Str
  pub action : Str
  pub target : Str

-- `RoleKind.IsValid`.
unfoldable pub role_kind_is_valid : Str → Bool
role_kind_is_valid kind =
    same kind administrator_kind || same kind user_kind || same kind custom_kind

-- `Role.IsProtected`.
unfoldable pub is_protected : Role → Bool
is_protected role = same role.kind administrator_kind || same role.kind user_kind

-- `Role.IsValid`.
unfoldable pub role_is_valid : Role → Bool
role_is_valid role =
    valid_uuid role.id
    && valid_uuid role.tenant_id
    && not (is_empty (trim_space role.name))
    && role_kind_is_valid role.kind

-- `MembershipStatus.IsValid`.
unfoldable pub membership_status_is_valid : Str → Bool
membership_status_is_valid status = same status active_status || same status inactive_status

-- `GlobalRole.IsValid`.
unfoldable pub global_role_is_valid : Str → Bool
global_role_is_valid role = same role global_user || same role global_super_administrator

-- `GlobalRole.IsSuperAdministrator`.
unfoldable pub is_super_administrator : Str → Bool
is_super_administrator role = same role global_super_administrator
