-- ===== src/Auth/Invite.antt =====
-- Who may invite, and what the store is given.
use mathlib.Core.List.{Mem}
use clinks.Prelude.{◌+◌, ◌≡◌, inl, inr, false, List, [], none, some, arith}
use clinks.Text.{Str, contains_iff}
use clinks.Errors.{ok, Result-cases}
use clinks.Domain.{
  Tenant, Role, Membership, Session, Invitation, is_super_administrator, delivery_queued,
}
use clinks.Email.{parse_email}
use clinks.Permission.{user_manage}
use clinks.Auth.{Auth, require_tenant_permission}
use clinks.Auth.Invitations.{acting_tenant, new_invitation, invitation_hash, create_invitation}

module _ {W : Type 0} (auth : Auth W) where
  -- The user has, in the tenant, an active membership whose role grants the permission.
  pub record Permitted (user_id tenant_id permission : Str) (w : W) : Type 0 where
    pub membership : Membership
    pub found : (auth.memberships.find_active_membership user_id tenant_id w).0 ≡ ok membership
    pub permissions : List Str
    pub granted :
        (auth.roles.permissions_for_role tenant_id membership.role_id
          (auth.memberships.find_active_membership user_id tenant_id w).1).0
        ≡ ok permissions
    pub holds : Mem permission permissions

  pub require_tenant_permission-Permitted :
      (user_id tenant_id permission : Str) (w : W) {m : Membership}
      → (require_tenant_permission auth user_id tenant_id permission w).0 ≡ ok m
      → Permitted user_id tenant_id permission w
  unfolding require_tenant_permission
  require_tenant_permission-Permitted user_id tenant_id permission w e =
      let (found, w1) = auth.memberships.find_active_membership user_id tenant_id w in
      elim (Result-cases found) [
        | inl (m, f) ↦
            elim (Result-cases (auth.roles.permissions_for_role tenant_id m.role_id w1).0) [
              | inl (ps, g) ↦ record {
                membership = m;
                found = f;
                permissions = ps;
                granted = g;
                holds = (contains_iff ps permission).0 (ground arith);
              }
              | inr (x, g) ↦ absurd (ground arith)
            ]
        | inr (x, f) ↦ absurd (ground arith)
      ]

  -- A fresh invitation, as `newInvitation` makes it, and the raw token that belongs to it.
  pub record Fresh (actor_id tenant_id email role_id locale : Str) (i : Invitation) (raw : Str)
      : Type 0 where
    pub of_tenant : i.tenant_id ≡ tenant_id
    pub to_email : i.email ≡ email
    pub with_role : i.role_id ≡ role_id
    pub by : i.created_by ≡ actor_id
    pub no_link : i.acceptance ≡ []
    pub hashed : i.token_hash ≡ invitation_hash auth.runtime raw
    pub unused : i.used_at ≡ none
    pub queued : i.delivery_status ≡ delivery_queued
    pub issued_at : W
    pub expires : i.expires_at ≡ auth.now issued_at + auth.invite_ttl

  new_invitation-Fresh :
      (actor_id tenant_id email role_id locale : Str) (w : W) {i : Invitation} {raw : Str}
      → (new_invitation auth actor_id tenant_id email role_id locale w).0 ≡ ok (i, raw)
      → Fresh actor_id tenant_id email role_id locale i raw
  unfolding new_invitation
  new_invitation-Fresh actor_id tenant_id email role_id locale w e = record {
    of_tenant = ground arith;
    to_email = ground arith;
    with_role = ground arith;
    by = ground arith;
    no_link = ground arith;
    hashed = ground arith;
    unused = ground arith;
    queued = ground arith;
    issued_at = (auth.new_invitation_id w).1;
    expires = ground arith;
  }

  pub record InviteGood (session : Session) (raw_email role_id : Str) (w : W) (i : Invitation)
      : Type 0 where
    pub plain : is_super_administrator session.user.global_role ≡ false
    pub tenant : Tenant
    pub in_tenant : session.active_tenant ≡ some tenant
    pub permitted : Permitted session.user.id tenant.id user_manage w
    pub before_role : W
    pub role : Role
    pub role_found : (auth.roles.find_role tenant.id role_id before_role).0 ≡ ok role
    pub email : Str
    pub parsed : parse_email auth.runtime raw_email ≡ ok email
    pub made : Invitation
    pub raw_token : Str
    pub fresh : Fresh session.user.id tenant.id email role_id session.user.locale made raw_token
    pub before_store : W
    pub stored : Invitation
    pub persisted :
        (auth.invitations.create_invitation (record made { role = some role }) before_store).0
        ≡ ok stored
    pub returned : record stored { acceptance = auth.link_url raw_token } ≡ i

  -- An invitation is created only by a user, no super administrator, who may manage users in the
  -- tenant of the session, for a role of that tenant; the store is given the hash of the token and no
  -- link, and the link with the raw token is added to what the store returned.
  pub create_invitation-InviteGood :
      (session : Session) (raw_email role_id : Str) (w : W) {i : Invitation}
      → (create_invitation auth session raw_email role_id w).0 ≡ ok i
      → InviteGood session raw_email role_id w i
  unfolding create_invitation
  create_invitation-InviteGood session raw_email role_id w {i} e =
      elim (Result-cases (acting_tenant session)) [
        | inl (tenant, a) ↦
            let (allowed, w1) =
              require_tenant_permission auth session.user.id tenant.id user_manage w in
            elim (Result-cases allowed) [
              | inl (m, r) ↦
                  let (role_found, w2) = auth.roles.find_role tenant.id role_id w1 in
                  elim (Result-cases role_found) [
                    | inl (role, f) ↦ elim (Result-cases (parse_email auth.runtime raw_email)) [
                      | inl (email, p) ↦
                          let (fresh, w3) =
                            new_invitation auth session.user.id tenant.id email role_id
                              session.user.locale w2 in
                          elim (Result-cases fresh) [
                            | inl ((made, raw), n) ↦
                                elim (Result-cases
                                  (auth.invitations.create_invitation
                                    (record made { role = some role }) w3).0) [
                                      | inl (stored, c) ↦ record {
                                        plain = ground arith;
                                        tenant = tenant;
                                        in_tenant = ground arith;
                                        permitted =
                                            require_tenant_permission-Permitted session.user.id
                                              tenant.id user_manage w r;
                                        before_role = w1;
                                        role = role;
                                        role_found = f;
                                        email = email;
                                        parsed = p;
                                        made = made;
                                        raw_token = raw;
                                        fresh =
                                            new_invitation-Fresh session.user.id tenant.id email
                                              role_id session.user.locale w2 n;
                                        before_store = w3;
                                        stored = stored;
                                        persisted = c;
                                        returned = ground arith;
                                      }
                                      | inr (x, c) ↦ absurd (ground arith)
                                    ]
                            | inr (x, n) ↦ absurd (ground arith)
                          ]
                      | inr (x, p) ↦ absurd (ground arith)
                    ]
                    | inr (x, f) ↦ absurd (ground arith)
                  ]
              | inr (x, r) ↦ absurd (ground arith)
            ]
        | inr (x, a) ↦ absurd (ground arith)
      ]
