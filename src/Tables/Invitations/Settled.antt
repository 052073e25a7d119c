-- ===== src/Tables/Invitations/Settled.antt =====
-- What the steps of `acceptInvitationTx` add up to.
use clinks.Prelude.{
  ◌≡◌, refl, sym, ap, inl, inr, Bool, true, false, Option, some, arith, Bool-cases, subst, subst₂,
}
use clinks.Text.{Str, str, same}
use clinks.Errors.{ok-injective, Result, ok, invite_email_mismatch, Result-cases}
use clinks.Exec.{pure}
use clinks.Exec.Hoare.{Ensures, >>=-Ensures, require_that-Ensures, Keeps-Ensures, Ensures-known}
use clinks.Sql.{any_where, update_where}
use clinks.Domain.{User, Membership, Invitation, ExternalIdentity}
use clinks.Tables.Audits.{audit-Keeps}
use clinks.Tables.{Tables, audit}
use clinks.Tables.Users.{rotate}
use clinks.Tables.Joining.Active.{joins, Framed, Joined, create_membership-Joined}
use clinks.Tables.Invitations.{
  rotation_failed, InvitationAcceptance, Uuids, accept_identity, link_identity, rotate_existing,
  locked_invitation, usable_now, by_hash, mark_invitation_used, accept_invitation_tx, accept,
  unused, used_row,
}
use clinks.Tables.Invitations.Frame.{
  accept_identity-blind, rotate_existing-blind, link_identity-blind,
}

-- What an acceptance that succeeds has read and written.
pub record Settled (hash email : Str) (before : Tables) (user : User) (after : Tables)
    : Type 0 where
  pub invitation : Invitation
  pub was_usable : usable_now before.now (by_hash hash before) ≡ ok invitation
  pub addressed : same invitation.email email ≡ true
  pub is_used :
      after.invitations
      ≡ update_where (unused invitation.id) (used_row before.now) before.invitations
  pub member : any_where (joins invitation user.id) after.memberships ≡ true

rotate_existing-id :
    (existing : Bool) (user : User) (db : Tables) (u : User)
    → (rotate_existing existing user db).0 ≡ ok u
    → u.id ≡ user.id
unfolding rotate_existing
rotate_existing-id false user db u h = ground arith
rotate_existing-id true user db u h = elim (Result-cases (rotate rotation_failed user.id db).0) [
  | inl (row, e) ↦ ground arith
  | inr (x, e) ↦ absurd (ground arith)
]

module _ (before : Tables) where
  abbrev Same : Tables → Type 0
  Same db = Framed before.invitations before.now db

  Usable : Str → Str → Invitation → Type 0
  Usable hash email i =
      (usable_now before.now (by_hash hash before) ≡ ok i) × (same i.email email ≡ true)

  locked-Same :
      (hash : Str)
      → Ensures Same
          (locked_invitation hash)
          (λ i db. Same db × (usable_now before.now (by_hash hash before) ≡ ok i))
  unfolding locked_invitation
  locked-Same hash = record { at = λ db p i h. (p, rw (sym p.rows, sym p.clock) h) }

  identity-Same :
      (user : User) (hash : Str) (existing : Bool) (uuid : Result Str)
      → Ensures Same (accept_identity user hash existing uuid) (λ u db. Same db)
  identity-Same user hash existing uuid = Keeps-Ensures Same _ (
      accept_identity-blind Same (λ db us p. record { rows = p.rows; clock = p.clock }) user hash
        existing uuid)

  link-Same :
      (user : User) (o : Option ExternalIdentity)
      → Ensures Same (link_identity user o) (λ u db. Same db)
  link-Same user o =
      Keeps-Ensures Same _
        (link_identity-blind Same (λ db is p. record { rows = p.rows; clock = p.clock }) user o)

  module _ (invitation : Invitation) where
    abbrev Member : Str → Tables → Type 0
    Member user_id db = Joined before.invitations before.now invitation user_id db

    -- The rotation keeps the user's identifier.
    rotate-Member :
        (existing : Bool) (user : User)
        → Ensures (Member user.id) (rotate_existing existing user) (λ u db. Member u.id db)
    rotate-Member existing user = record {
      at = λ db p u h.
          let kept =
            (rotate_existing-blind (Member user.id)
                (λ db' us q. record {
                  framed = record { rows = q.framed.rows; clock = q.framed.clock };
                  member = q.member;
                })
                existing user).keeps
              db p in
          rw (rotate_existing-id existing user db u h) kept;
    }

    -- The invitation is used, beside the membership.
    record Used (user_id : Str) (db : Tables) : Type 0 where
      rows :
          db.invitations
          ≡ update_where (unused invitation.id) (used_row before.now) before.invitations
      member : any_where (joins invitation user_id) db.memberships ≡ true

    mark-Used :
        (user_id : Str)
        → Ensures (Member user_id) (mark_invitation_used invitation.id) (λ u db. Used user_id db)
    unfolding mark_invitation_used
    mark-Used user_id = record {
      at = λ db p u h. elim (Bool-cases (any_where (unused invitation.id) db.invitations)) [
        | inr n ↦ absurd (ground arith)
        | inl e ↦
            rw e (record { rows = rw (p.framed.rows, p.framed.clock) refl; member = p.member })
      ];
    }

    audit-Used :
        (user_id : Str) (uuid : Result Str) (actor tenant : Option Str) (action target : Str)
        → Ensures (Used user_id) (audit uuid actor tenant action target) (λ u db. Used user_id db)
    audit-Used user_id uuid actor tenant action target = Keeps-Ensures (Used user_id) _ (
        audit-Keeps (Used user_id) (λ db events p. record { rows = p.rows; member = p.member }) uuid
          actor tenant action target)

  accept_tx-Settled :
      (acceptance : InvitationAcceptance) (uuids : Uuids)
      → Ensures Same
          (accept_invitation_tx acceptance uuids)
          (λ r db. Settled acceptance.invitation.token_hash acceptance.user.email before r.0 db)
  unfolding accept_invitation_tx
  accept_tx-Settled acceptance uuids =
      >>=-Ensures _ _ (locked-Same acceptance.invitation.token_hash) (λ invitation.
        Ensures-known λ usable.
          >>=-Ensures _ _
            (require_that-Ensures Same (same invitation.email acceptance.user.email)
              invite_email_mismatch)
            (λ u. Ensures-known λ addressed.
              >>=-Ensures _ _
                (identity-Same acceptance.user acceptance.password_hash acceptance.existing_user
                  uuids.user)
                (λ user. >>=-Ensures _ _ (link-Same user acceptance.identity) (λ v.
                  >>=-Ensures _ _
                    (create_membership-Joined before.invitations before.now invitation user.id
                      uuids.membership)
                    (λ membership.
                      >>=-Ensures _ _ (rotate-Member invitation acceptance.existing_user user)
                        (λ user'. >>=-Ensures _ _ (mark-Used invitation user'.id) (λ w.
                          >>=-Ensures _ (λ x. pure (user', membership))
                            (audit-Used invitation user'.id uuids.event (some user'.id)
                              (some invitation.tenant_id) (str "invitation.accepted") user'.email)
                            (λ x. record {
                              at = λ db p r h.
                                  let e : user' ≡ r.0 = ap (λ z. z.0) (ok-injective h) in
                                  record {
                                    invitation = invitation;
                                    was_usable = usable;
                                    addressed = addressed;
                                    is_used = p.rows;
                                    member =
                                        subst
                                          (λ z.
                                            any_where (joins invitation z.id) db.memberships ≡ true)
                                          e p.member;
                                  };
                            }))))))))

pub accept-Settled :
    (acceptance : InvitationAcceptance) (uuids : Uuids) (before after : Tables) (user : User)
    (membership : Membership)
    → accept acceptance uuids before ≡ (ok (user, membership), after)
    → Settled acceptance.invitation.token_hash acceptance.user.email before user after
unfolding accept
accept-Settled acceptance uuids before after user membership h =
    elim (Result-cases (accept_invitation_tx acceptance uuids before).0) [
      | inr (x, e) ↦ absurd (ground arith)
      | inl (r, e) ↦
          let done =
            (accept_tx-Settled before acceptance uuids).at before
              (record { rows = refl; clock = refl }) r e in
          let same_user : r.0 ≡ user = ground arith in
          let same_after : (accept_invitation_tx acceptance uuids before).1 ≡ after =
            ground arith in
          subst₂ (λ u w. Settled acceptance.invitation.token_hash acceptance.user.email before u w)
            same_user same_after done
    ]
