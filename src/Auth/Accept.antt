-- ===== src/Auth/Accept.antt =====
-- What it takes to accept an invitation by password.
use clinks.Prelude.{ℕ, ◌<◌, ◌≡◌, ap, ◌∙◌, inl, inr, true, false, none, arith}
use clinks.Text.{Str, same→eq, trim_space, is_empty}
use clinks.Errors.{Result, ok, err, is_invalid_credentials, fails, Result-cases}
use clinks.Domain.{
  User, Membership, Session, Invitation, is_super_administrator, is_used, is_expired,
}
use clinks.Email.{parse_email}
use clinks.Validation.{validate_password}
use clinks.Localization.{new_locale}
use clinks.Auth.{Auth, issue}
use clinks.Auth.Login.{issue-eq-ok}
use clinks.Auth.Invitations.{
  Acceptor, acceptor, joined, usable, invitation_hash, find_invitation, accept_invitation,
}

usable-eq-ok :
    (invitation : Invitation) (now : ℕ) {i : Invitation}
    → usable invitation now ≡ ok i
    → (invitation ≡ i) × (i.used_at ≡ none) × (now < i.expires_at)
unfolding is_used is_expired
usable-eq-ok invitation now e = ground arith

module _ {W : Type 0} (auth : Auth W) where
  -- An invitation that the token leads to, neither used nor expired when it was read.
  pub record Usable (token : Str) (w : W) (i : Invitation) : Type 0 where
    pub named : is_empty (trim_space token) ≡ false
    pub found :
        (auth.invitations.find_invitation (invitation_hash auth.runtime (trim_space token)) w).0
        ≡ ok i
    pub unused : i.used_at ≡ none
    pub in_time :
        auth.now
          (auth.invitations.find_invitation (invitation_hash auth.runtime (trim_space token)) w).1
        < i.expires_at

  -- A token leads only to an invitation that is stored under its hash, unused and in time.
  pub find_invitation-Usable :
      (token : Str) (w : W) {i : Invitation}
      → (find_invitation auth token w).0 ≡ ok i
      → Usable token w i
  unfolding find_invitation
  find_invitation-Usable token w {i} e =
      let hash = invitation_hash auth.runtime (trim_space token) in
      let (found, w') = auth.invitations.find_invitation hash w in
      elim (Result-cases found) [
        | inl (j, f) ↦
            let u : usable j (auth.now w') ≡ ok i = ground arith in
            let (same_one, unused, in_time) = usable-eq-ok j (auth.now w') u in
            record {
              named = ground arith;
              found = f ∙ ap ok same_one;
              unused = unused;
              in_time = in_time;
            }
        | inr (x, f) ↦ absurd (ground arith)
      ]

  -- An existing user proved the password and is no super administrator; anybody else is new.
  abbrev pub Proven : Str → Result (User × Str) → Acceptor → Type 0
  Proven password (ok (user, current_hash)) a =
      (a.user ≡ user)
      × (a.existing_user ≡ true)
      × (is_super_administrator user.global_role ≡ false)
      × (auth.passwords.verify password current_hash ≡ true)
  Proven password (err e) a = (is_invalid_credentials e ≡ true) × (a.existing_user ≡ false)

  acceptor-Proven :
      (email password locale : Str) (found : Result (User × Str)) (w : W) {a : Acceptor}
      → (acceptor auth email password locale found w).0 ≡ ok a
      → Proven password found a
  unfolding acceptor
  acceptor-Proven email password locale (ok (user, current_hash)) w e = ground arith
  acceptor-Proven email password locale (err x) w e = ground arith

  pub record AcceptGood (token raw_email password locale : Str) (w : W) (s : Session) : Type 0 where
    pub email : Str
    pub parsed : parse_email auth.runtime raw_email ≡ ok email
    pub strong : fails (validate_password password) ≡ false
    pub invitation : Invitation
    pub usable : Usable token w invitation
    pub addressed : invitation.email ≡ email
    pub who : Acceptor
    pub proven :
        Proven password (auth.identities.find_by_email email (find_invitation auth token w).1).0 who
    pub user : User
    pub membership : Membership
    pub before_store : W
    pub accepted :
        (auth.invitations.accept_invitation
          (record {
            invitation = invitation;
            user = who.user;
            password_hash = who.password_hash;
            existing_user = who.existing_user;
          })
          before_store).0
        ≡ ok (user, membership)
    pub session : record (joined (user, membership)) { token = s.token } ≡ s

  -- An invitation is accepted by password only if the token leads to an unused invitation in time,
  -- addressed to the email given, and the user either proved the stored password and is no super
  -- administrator, or is unknown to the identity store; the session returned holds just the
  -- membership that the invitation store gave out.
  pub accept_invitation-AcceptGood :
      (token raw_email password locale : Str) (w : W) {s : Session}
      → (accept_invitation auth token raw_email password locale w).0 ≡ ok s
      → AcceptGood token raw_email password locale w s
  unfolding accept_invitation
  accept_invitation-AcceptGood token raw_email password locale w {s} e =
      let locale' = new_locale auth.runtime.tables locale in
      let (opened, w1) = find_invitation auth token w in
      elim (Result-cases (parse_email auth.runtime raw_email)) [
        | inl (email, p) ↦ elim (Result-cases opened) [
          | inl (i, o) ↦
              let (found, w2) = auth.identities.find_by_email email w1 in
              let (vetted, w3) = acceptor auth email password locale' found w2 in
              elim (Result-cases vetted) [
                | inl (a, v) ↦
                    let (stored, w4) =
                      auth.invitations.accept_invitation
                        (record {
                          invitation = i;
                          user = a.user;
                          password_hash = a.password_hash;
                          existing_user = a.existing_user;
                        })
                        w3 in
                    elim (Result-cases stored) [
                      | inl ((user, membership), t) ↦
                          let signed : (issue auth (joined (user, membership)) w4).0 ≡ ok s =
                            ground arith in
                          record {
                            email = email;
                            parsed = p;
                            strong = ground arith;
                            invitation = i;
                            usable = find_invitation-Usable token w o;
                            addressed = ground (arith, same→eq i.email email);
                            who = a;
                            proven = acceptor-Proven email password locale' found w2 v;
                            user = user;
                            membership = membership;
                            before_store = w3;
                            accepted = t;
                            session = (issue-eq-ok auth (joined (user, membership)) w4 signed).1;
                          }
                      | inr (x, t) ↦ absurd (ground arith)
                    ]
                | inr (x, v) ↦ absurd (ground arith)
              ]
          | inr (x, o) ↦ absurd (ground arith)
        ]
        | inr (x, p) ↦ absurd (ground arith)
      ]
