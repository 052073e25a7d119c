-- ===== src/Auth/Tests.antt =====
-- A service over stores with one user, and runs of it.
use clinks.Prelude.{ℕ, ◌+◌, ◌≡◌, refl, inl, false, [], ◌∷◌, none, some}
use clinks.Text.{Str, str, same, contains, trim_space, to_lower, valid_string, rune_count, ranges}
use clinks.Errors.{ok, err, domain, invalid_credentials, invitation_invalid}
use clinks.Exec.{Act}
use clinks.Runtime.{Runtime}
use clinks.Domain.{
  Tenant, Role, User, Membership, Session, Invitation, is_super_administrator, is_used, is_expired,
  active_status, inactive_status, global_user, custom_kind, delivery_queued,
}
use clinks.Email.{parse_email}
use clinks.Validation.{valid_uuid, validate_password}
use clinks.Localization.{new_locale, locale_is_valid}
use clinks.Permission.{user_manage}
use clinks.Auth.{
  Auth, active_memberships, select_session, tenant_among, session_for_user, issue,
  require_tenant_permission, append_audit, same_user_session,
}
use clinks.Auth.Credentials.{current_session, switch_tenant, login_as}
use clinks.Auth.Invitations.{
  invitation_hash, new_invitation, create_invitation, find_invitation, acceptor, accept_invitation,
}
use clinks.Auth.Login.{LoginGood, TokenGood, login_as-LoginGood, current_session-TokenGood}
use clinks.Auth.Refusal.{SwitchGood, login_refused, switch_tenant-SwitchGood}
use clinks.Auth.Accept.{AcceptGood, accept_invitation-AcceptGood}
use clinks.Auth.Invite.{InviteGood, create_invitation-InviteGood}

abbrev home_id : Str
home_id = str "00000000-0000-0000-0000-00000000000a"

abbrev role_id : Str
role_id = str "00000000-0000-0000-0000-00000000000b"

abbrev home : Tenant
home = record { id = home_id; name = str "Home"; revision = 1; created_at = 0; updated_at = 0 }

abbrev manager : Role
manager = record {
  id = role_id;
  tenant_id = home_id;
  name = str "Manager";
  kind = custom_kind;
  permissions = user_manage ∷ [];
  revision = 1;
  created_at = 0;
  updated_at = 0;
}

abbrev ada : User
ada = record {
  id = str "u1";
  email = str "ada@x.ch";
  global_role = global_user;
  locale = str "de";
  session_version = 4;
}

abbrev membership_with : Str → Membership
membership_with status = record {
  id = str "m1";
  user_id = str "u1";
  user_email = str "ada@x.ch";
  tenant = home;
  role_id = role_id;
  role = manager;
  status = status;
  revision = 1;
  created_at = 0;
  updated_at = 0;
}

abbrev open_invitation : Invitation
open_invitation = record {
  id = str "i1";
  tenant_id = home_id;
  email = str "ada@x.ch";
  role_id = role_id;
  role = some manager;
  token_hash = str "t1";
  expires_at = 900;
  used_at = none;
  revoked_at = none;
  created_by = str "u2";
  acceptance = [];
  delivery_status = delivery_queued;
  locale = str "de";
  created_at = 0;
}

abbrev plain_runtime : Runtime
plain_runtime = record {
  tables = record { lower_rune = λ r. r; upper_rune = λ r. r };
  parse_address = λ s. some s;
  sha256 = λ s. s;
  base64 = λ s. s;
}

-- A call that counts itself.
abbrev answer : {A : Type 0} → A → Act ℕ A
answer a w = (ok a, w + 1)

abbrev password : Str
password = str "correct horse"

abbrev service : Auth ℕ
service = record {
  runtime = plain_runtime;
  identities = record {
    find_by_email = λ email. answer (ada, password);
    find_by_id = λ id. answer ada;
    invalidate_session = λ id. answer tt;
    rotate_tenant_session = λ id tenant name. answer 5;
  };
  federation = record {
    find_user = λ issuer subject. answer ada;
    link_with_audit = λ id identity tenant. answer tt;
  };
  provisioner = record {
    create_tenant_owner = λ registration. answer (record {
      token = [];
      user = ada;
      active_tenant = some home;
      memberships = membership_with active_status ∷ [];
    });
  };
  memberships = record {
    memberships_for_user =
        λ id. answer (membership_with inactive_status ∷ membership_with active_status ∷ []);
    find_active_membership = λ id tenant. answer (membership_with active_status);
  };
  roles = record {
    find_role = λ tenant id. answer manager;
    permissions_for_role = λ tenant id. answer (user_manage ∷ []);
  };
  invitations = record {
    create_invitation = λ invitation. answer invitation;
    find_invitation = λ hash. answer open_invitation;
    accept_invitation = λ acceptance. answer (ada, membership_with active_status);
    accept_external_invitation = λ acceptance. answer (ada, membership_with active_status);
  };
  passwords = record { hash = λ p. answer p; verify = same };
  sessions = record {
    issue = λ claim. answer (str "signed");
    verify = λ token.
        answer
          (record { user_id = str "u1"; active_tenant_id = some home_id; session_version = 4 });
  };
  append_audit_event = λ event. answer tt;
  new_invitation_id = answer (str "i2");
  token_of = λ invitation. answer (str "t2");
  link_url = λ token. str "https://x.ch/invite";
  invite_ttl = 100;
  now = λ w. w;
}

abbrev current : Session
current = record {
  token = str "signed";
  user = ada;
  active_tenant = some home;
  memberships = membership_with active_status ∷ [];
}

login_as-LoginGood_example :
    LoginGood service
      (str " Ada@x.ch")
      password
      false
      0
      (login_as service (str " Ada@x.ch") password false 0)
unfolding login_as parse_email trim_space to_lower same session_for_user is_super_administrator
    active_memberships select_session tenant_among issue append_audit
login_as-LoginGood_example = login_as-LoginGood service (str " Ada@x.ch") password false 0 refl

current_session-TokenGood_example :
    TokenGood service (str "signed") 0 (record current { token = str "signed" })
unfolding current_session same_user_session same session_for_user is_super_administrator
    active_memberships select_session tenant_among
current_session-TokenGood_example = current_session-TokenGood service (str "signed") 0 refl

login_refused_example :
    login_as service (str "ada@x.ch") (str "guess") false 0 ≡ (err (domain invalid_credentials), 1)
unfolding parse_email trim_space to_lower same
login_refused_example =
    login_refused service (str "ada@x.ch") (str "guess") false 0 (str "ada@x.ch") refl (inl refl)

switch_tenant-SwitchGood_example :
    SwitchGood service current home_id 0
      (record current { user = record ada { session_version = 5 } })
unfolding switch_tenant valid_uuid ranges is_super_administrator same issue
switch_tenant-SwitchGood_example = switch_tenant-SwitchGood service current home_id 0 refl

accept_invitation-AcceptGood_example :
    AcceptGood service (str " t1 ") (str "ada@x.ch") password (str "de-ch") 0 current
unfolding accept_invitation parse_email trim_space to_lower same validate_password valid_string
    rune_count new_locale locale_is_valid find_invitation invitation_hash is_used is_expired
    acceptor is_super_administrator issue
accept_invitation-AcceptGood_example =
    accept_invitation-AcceptGood service (str " t1 ") (str "ada@x.ch") password (str "de-ch") 0 refl

create_invitation-InviteGood_example :
    InviteGood service current (str "bo@x.ch") role_id 0 (record {
      id = str "i2";
      tenant_id = home_id;
      email = str "bo@x.ch";
      role_id = role_id;
      role = some manager;
      token_hash = str "t2";
      expires_at = 104;
      used_at = none;
      revoked_at = none;
      created_by = str "u1";
      acceptance = str "https://x.ch/invite";
      delivery_status = delivery_queued;
      locale = str "de";
      created_at = 0;
    })
unfolding create_invitation valid_uuid ranges is_super_administrator same contains
    require_tenant_permission parse_email trim_space to_lower new_invitation invitation_hash
create_invitation-InviteGood_example =
    create_invitation-InviteGood service current (str "bo@x.ch") role_id 0 refl

-- A token of white space leads nowhere.
blank_token : (find_invitation service (str "  ") 0) ≡ (err (domain invitation_invalid), 0)
unfolding find_invitation trim_space
blank_token = refl
