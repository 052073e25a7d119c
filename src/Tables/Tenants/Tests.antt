-- ===== src/Tables/Tenants/Tests.antt =====
-- A registration on the tables of the sample.
use clinks.Prelude.{◌≡◌, refl, some, none, [], Option}
use clinks.Text.{str, same, contains, precedes, rune_count, trim_space}
use clinks.Errors.{Result, ok, err, domain, conflict, email_taken, wrap}
use clinks.Permission.{is_valid, all_permissions, default_user_permissions}
use clinks.Domain.{Session, Tenant, TenantOwnerRegistration}
use clinks.Sql.{btrim, drop_spaces, drop_spaces_end, char_length_between}
use clinks.Tables.{Tables}
use clinks.Tables.Sample.{sample, home, ada}
use clinks.Tables.Users.{insert_user}
use clinks.Tables.Roles.{insert_role_permissions, insert_ordered}
use clinks.Tables.Tenants.{TenantUuids, create_tenant_owner, new_tenant, update_system}
use clinks.Tables.Tenants.Defaults.{Keys}
use clinks.Tables.Tenants.Owned.{OwnerSession, create_tenant_owner-OwnerSession}

abbrev registration : TenantOwnerRegistration
registration = record {
  email = str "eve@x.ch";
  password_hash = str "p";
  locale = str "de";
  tenant_name = str " Works ";
}

abbrev uuids : TenantUuids
uuids = record {
  tenant = ok (str "00000000-0000-0000-0000-0000000000a2");
  user = ok (str "u");
  membership = ok (str "m");
  administrator = ok (str "r1");
  user_role = ok (str "r2");
  event = ok (str "e");
}

abbrev registered : Result Session × Tables
registered = create_tenant_owner (λ s. s) registration uuids sample

abbrev tenant_of : Result Session → Option Tenant
tenant_of (ok s) = s.active_tenant
tenant_of (err e) = none

abbrev session_or : Result Session → Session → Session
session_or (ok s) other = s
session_or (err e) other = other

abbrev no_session : Session
no_session = record { token = []; user = ada; active_tenant = none; memberships = [] }

tenant_entered :
    tenant_of registered.0
    ≡ some (new_tenant (str "00000000-0000-0000-0000-0000000000a2") (str "Works"))
unfolding create_tenant_owner insert_user insert_role_permissions insert_ordered same contains
    precedes rune_count btrim drop_spaces drop_spaces_end char_length_between trim_space is_valid
    all_permissions default_user_permissions
tenant_entered = refl

-- An address that is in use.
address_taken :
    create_tenant_owner (λ s. s) (record registration { email = ada.email }) uuids sample
    ≡ (err (wrap (str "provision tenant owner") (domain email_taken)), sample)
unfolding create_tenant_owner insert_user same rune_count btrim drop_spaces drop_spaces_end
    char_length_between trim_space
address_taken = refl

-- An old revision.
tenant_conflict :
    update_system (record home { revision = 7 }) ada.id (ok (str "e")) sample
    ≡ (err (domain conflict), sample)
unfolding update_system same
tenant_conflict = refl

registration_ok : registered.0 ≡ ok (session_or registered.0 no_session)
unfolding create_tenant_owner insert_user insert_role_permissions insert_ordered same contains
    precedes rune_count btrim drop_spaces drop_spaces_end char_length_between trim_space is_valid
    all_permissions default_user_permissions
registration_ok = refl

sample-Keys : Keys sample
unfolding same
sample-Keys = record { roles = (refl, (refl, tt)); memberships = (refl, tt) }

create_tenant_owner-OwnerSession_example :
    OwnerSession (session_or registered.0 no_session) registered.1
create_tenant_owner-OwnerSession_example =
    create_tenant_owner-OwnerSession (λ s. s) registration uuids sample
      (session_or registered.0 no_session) sample-Keys registration_ok
