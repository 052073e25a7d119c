-- ===== src/Tables/Sample.antt =====
-- A tenant with an administrator and an invitation of another user.
use clinks.Prelude.{true, [], ◌∷◌, none, some}
use clinks.Text.{Str, str}
use clinks.Errors.{ok}
use clinks.Domain.{
  Tenant, Role, User, Membership, Invitation, administrator_kind, custom_kind, active_status,
  global_user, delivery_sent,
}
use clinks.Tables.{Tables, MembershipRow}
use clinks.Tables.Invitations.{InvitationAcceptance, Uuids}

abbrev pub home_id : Str
home_id = str "00000000-0000-0000-0000-0000000000a1"

abbrev pub home : Tenant
home = record { id = home_id; name = str "Home"; revision = 1; created_at = 0; updated_at = 0 }

abbrev pub role_with : Str → Str → Role
role_with id kind = record {
  id = id;
  tenant_id = home_id;
  name = id;
  kind = kind;
  permissions = [];
  revision = 1;
  created_at = 0;
  updated_at = 0;
}

abbrev pub ada : User
ada = record {
  id = str "00000000-0000-0000-0000-0000000000b1";
  email = str "ada@x.ch";
  global_role = global_user;
  locale = str "de";
  session_version = 4;
}

abbrev pub bob : User
bob = record ada { id = str "00000000-0000-0000-0000-0000000000b2"; email = str "bob@x.ch" }

abbrev pub ada_row : MembershipRow
ada_row = record {
  id = str "m1";
  tenant_id = home_id;
  user_id = ada.id;
  role_id = str "admin";
  status = active_status;
  revision = 3;
  created_at = 0;
  updated_at = 0;
}

abbrev pub invitation : Invitation
invitation = record {
  id = str "i1";
  tenant_id = home_id;
  email = str "bob@x.ch";
  role_id = str "staff";
  role = none;
  token_hash = str "h1";
  expires_at = 900;
  used_at = none;
  revoked_at = none;
  created_by = ada.id;
  acceptance = [];
  delivery_status = delivery_sent;
  locale = str "de";
  created_at = 0;
}

abbrev pub sample : Tables
sample = record {
  tenants = home ∷ [];
  users =
      (record { user = ada; password_hash = some (str "p1") })
      ∷ (record { user = bob; password_hash = none })
      ∷ [];
  roles = role_with (str "admin") administrator_kind ∷ role_with (str "staff") custom_kind ∷ [];
  memberships = ada_row ∷ [];
  invitations = invitation ∷ [];
  identities = [];
  audits = [];
  now = 5;
}

-- The demotion of the only administrator.
abbrev pub demotion : Membership
demotion = record {
  id = str "m1";
  user_id = ada.id;
  user_email = ada.email;
  tenant = home;
  role_id = str "staff";
  role = role_with (str "staff") custom_kind;
  status = active_status;
  revision = 3;
  created_at = 0;
  updated_at = 0;
}

abbrev pub acceptance : InvitationAcceptance
acceptance = record {
  invitation = invitation;
  user = bob;
  password_hash = [];
  existing_user = true;
  identity = none;
}

abbrev pub uuids : Uuids
uuids = record { user = ok (str "u9"); membership = ok (str "m9"); event = ok (str "e9") }
