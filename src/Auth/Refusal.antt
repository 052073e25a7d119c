-- ===== src/Auth/Refusal.antt =====
-- What a refused login tells, and what a change of tenant takes.
use clinks.Prelude.{
  ℕ, ◌≡◌, ◌≢◌, refl, sym, ap, subst, ◌⊎◌, inl, inr, Bool, true, false, some, arith,
}
use clinks.Text.{Str}
use clinks.Errors.{Result, ok, err, domain, invalid_credentials, Result-cases}
use clinks.Domain.{User, Membership, Session, is_super_administrator}
use clinks.Email.{parse_email}
use clinks.Validation.{valid_uuid}
use clinks.Auth.{Auth, issue, claim_of}
use clinks.Auth.Login.{issue-eq-ok}
use clinks.Auth.Credentials.{switch_tenant, login_as, check_login}

module _ {W : Type 0} (auth : Auth W) where
  -- Why the lookup of an address is not enough for a login.
  abbrev pub NotLetIn : Str → Bool → Result (User × Str) → Type 0
  NotLetIn password super (err e) = Unit
  NotLetIn password super (ok (user, password_hash)) =
      (auth.passwords.verify password password_hash ≡ false)
      ⊎ (is_super_administrator user.global_role ≢ super)

  check_login_refuses :
      (password : Str) (super : Bool) (found : Result (User × Str))
      → NotLetIn password super found
      → check_login auth password super found ≡ err (domain invalid_credentials)
  unfolding check_login
  check_login_refuses password super (err e) n = refl
  check_login_refuses password super (ok (user, password_hash)) n = ground arith

  -- An unknown address, a wrong password and a wrong kind of user are answered alike, and nothing
  -- happens beyond the lookup of the address.
  pub login_refused :
      (raw_email password : Str) (super : Bool) (w : W) (email : Str)
      → parse_email auth.runtime raw_email ≡ ok email
      → NotLetIn password super (auth.identities.find_by_email email w).0
      → login_as auth raw_email password super w
        ≡ (err (domain invalid_credentials), (auth.identities.find_by_email email w).1)
  unfolding login_as
  login_refused raw_email password super w email p n =
      let c = check_login_refuses password super (auth.identities.find_by_email email w).0 n in
      ground (arith, c)

  -- What a change of tenant checked and issued.
  pub record SwitchGood (session : Session) (requested : Str) (w : W) (s : Session) : Type 0 where
    pub is_id : valid_uuid requested ≡ true
    pub plain : is_super_administrator session.user.global_role ≡ false
    pub membership : Membership
    pub found :
        (auth.memberships.find_active_membership session.user.id requested w).0 ≡ ok membership
    pub version : ℕ
    pub rotated :
        (auth.identities.rotate_tenant_session session.user.id requested membership.tenant.name
          (auth.memberships.find_active_membership session.user.id requested w).1).0
        ≡ ok version
    pub same_user : s.user ≡ record (session.user) { session_version = version }
    pub in_tenant : s.active_tenant ≡ some membership.tenant
    pub before_issue : W
    pub issued : (auth.sessions.issue (claim_of auth s) before_issue).0 ≡ ok s.token

  -- The tenant of a session changes only to one in which the user, no super administrator, has an
  -- active membership; the new token is for that tenant and the session version that the rotation
  -- gave out.
  pub switch_tenant-SwitchGood :
      (session : Session) (requested : Str) (w : W) {s : Session}
      → (switch_tenant auth session requested w).0 ≡ ok s
      → SwitchGood session requested w s
  unfolding switch_tenant
  switch_tenant-SwitchGood session requested w {s} e =
      let (found, w1) = auth.memberships.find_active_membership session.user.id requested w in
      elim (Result-cases found) [
        | inl (m, f) ↦
            let (rotated, w2) =
              auth.identities.rotate_tenant_session session.user.id requested m.tenant.name w1 in
            elim (Result-cases rotated) [
              | inl (version, r) ↦
                  let s0 : Session = record session {
                    active_tenant = some m.tenant;
                    user = record (session.user) { session_version = version };
                  } in
                  let i : (issue auth s0 w2).0 ≡ ok s = ground arith in
                  let (by, is_s) = issue-eq-ok auth s0 w2 i in
                  record {
                    is_id = ground arith;
                    plain = ground arith;
                    membership = m;
                    found = f;
                    version = version;
                    rotated = r;
                    same_user = sym (ap (λ (x : Session). x.user) is_s);
                    in_tenant = sym (ap (λ (x : Session). x.active_tenant) is_s);
                    before_issue = w2;
                    issued =
                        subst (λ x. (auth.sessions.issue (claim_of auth x) w2).0 ≡ ok x.token) is_s
                          by;
                  }
              | inr (x, r) ↦ absurd (ground arith)
            ]
        | inr (x, f) ↦ absurd (ground arith)
      ]
