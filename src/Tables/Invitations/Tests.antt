-- ===== src/Tables/Invitations/Tests.antt =====
-- A user who accepts an invitation, and tries to again.
use clinks.Prelude.{arith, none, ◌≡◌, refl, [], ◌∷◌, some}
use clinks.Text.{str, same, ranges}
use clinks.Errors.{ok}
use clinks.Validation.{valid_uuid}
use clinks.Domain.{custom_kind, active_status, User, Membership, is_super_administrator}
use clinks.Tables.{Tables}
use clinks.Tables.Users.{rotate}
use clinks.Tables.Joining.{create_membership}
use clinks.Tables.Invitations.{
  accept, locked_invitation, accept_identity, link_identity, rotate_existing, mark_invitation_used,
}
use clinks.Tables.Invitations.Once.{accept_once, Refused}
use clinks.Tables.Invitations.Spent.{Writes, here, next, elsewhere, accepts, anonymizes}
use clinks.Tables.Invitations.Expiry.{anonymize_expired_invitations}
use clinks.Tables.Sample.{
  sample, acceptance, uuids, bob, ada, ada_row, home, home_id, invitation, role_with,
}

abbrev bob_rotated : User
bob_rotated = record bob { session_version = 5 }

abbrev bob_membership : Membership
bob_membership = record {
  id = str "m9";
  user_id = bob.id;
  user_email = [];
  tenant = home;
  role_id = str "staff";
  role = role_with (str "staff") custom_kind;
  status = active_status;
  revision = 1;
  created_at = 0;
  updated_at = 0;
}

abbrev outcome : Tables
outcome = record sample {
  users =
      (record { user = ada; password_hash = some (str "p1") })
      ∷ (record { user = bob_rotated; password_hash = none })
      ∷ [];
  memberships =
      ada_row
      ∷ (record {
        id = str "m9";
        tenant_id = home_id;
        user_id = bob.id;
        role_id = str "staff";
        status = active_status;
        revision = 1;
        created_at = 5;
        updated_at = 5;
      })
      ∷ [];
  invitations = (record invitation { used_at = some 5 }) ∷ [];
  audits =
      (record {
        occurred_at = 5;
        actor_id = some bob.id;
        tenant_id = some home_id;
        action = str "invitation.accepted";
        target = bob.email;
      })
      ∷ [];
}

accepted : accept acceptance uuids sample ≡ (ok (bob_rotated, bob_membership), outcome)
unfolding accept locked_invitation same accept_identity valid_uuid ranges is_super_administrator
    link_identity create_membership rotate_existing rotate mark_invitation_used
accepted = refl

-- A month later the invitation is anonymized, and before and after that bob tries again.
abbrev forgotten : Tables
forgotten = record outcome {
  now = 100;
  invitations = (record invitation { used_at = some 5; email = []; token_hash = [] }) ∷ [];
}

abbrev month : Writes (str "h1") outcome forgotten
unfolding accept locked_invitation same accept_identity valid_uuid ranges is_super_administrator
    link_identity create_membership rotate_existing rotate mark_invitation_used
    anonymize_expired_invitations
month =
    next
      (next
        (next (next here (elsewhere (record outcome { now = 6 }) refl)) (accepts acceptance uuids))
        (elsewhere (record outcome { now = 100 }) refl))
      (anonymizes 50)

accept_once_example : Refused (str "h1") forgotten (accept acceptance uuids forgotten)
accept_once_example =
    accept_once acceptance acceptance uuids uuids sample outcome forgotten bob_rotated
      bob_membership (ground arith) accepted month refl
