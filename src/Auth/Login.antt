-- ===== src/Auth/Login.antt =====
-- What it takes to get a session: by a token, by a password, or by changing the tenant.
use clinks.Prelude.{◌≡◌, sym, ap, subst, inl, inr, Bool, true, false, none, arith}
use clinks.Text.{Str, str, same→eq}
use clinks.Errors.{Result, ok, err, fails, Result-cases}
use clinks.Domain.{User, Session, SessionClaim, is_super_administrator}
use clinks.Email.{parse_email}
use clinks.Auth.{
  Auth, session_for_user, issue, claim_of, tenant_id, same_user_session, append_audit,
}
use clinks.Auth.Sessions.{
  SessionFor, session_for_user-SessionFor, SessionFor-token, ListedFor, session_for_user-ListedFor,
  ListedFor-token,
}
use clinks.Auth.Credentials.{current_session, login_as, check_login}

same_user_session_lem :
    (claim : SessionClaim) (user : User)
    → same_user_session claim user ≡ true
    → (claim.user_id ≡ user.id) × (claim.session_version ≡ user.session_version)
unfolding same_user_session
same_user_session_lem claim user e = ground (arith, same→eq claim.user_id user.id)

module _ {W : Type 0} (auth : Auth W) where
  -- A token is good for a session.
  pub record TokenGood (token : Str) (w : W) (s : Session) : Type 0 where
    pub claim : SessionClaim
    pub claimed : (auth.sessions.verify token w).0 ≡ ok claim
    pub user : User
    pub found :
        (auth.identities.find_by_id claim.user_id (auth.sessions.verify token w).1).0 ≡ ok user
    pub same_id : claim.user_id ≡ user.id
    pub same_version : claim.session_version ≡ user.session_version
    pub session : SessionFor user claim.active_tenant_id s
    pub memberships :
        ListedFor auth user
          (auth.identities.find_by_id claim.user_id (auth.sessions.verify token w).1).1
          s
    pub keeps_token : s.token ≡ token

  current_session_run :
      (token : Str) (w : W) {s : Session}
      → (current_session auth token w).0 ≡ ok s
      → (claim : SessionClaim) × (user : User) × (s' : Session) × ((auth.sessions.verify token w).0
          ≡ ok claim)
        × ((auth.identities.find_by_id claim.user_id (auth.sessions.verify token w).1).0 ≡ ok user)
        × (same_user_session claim user ≡ true)
        × ((session_for_user auth user claim.active_tenant_id
              (auth.identities.find_by_id claim.user_id (auth.sessions.verify token w).1).1).0
            ≡ ok s')
        × (record s' { token = token } ≡ s)
  unfolding current_session
  current_session_run token w e = elim (Result-cases (auth.sessions.verify token w).0) [
    | inl (claim, c) ↦
        let (found, w') =
          auth.identities.find_by_id claim.user_id (auth.sessions.verify token w).1 in
        elim (Result-cases found) [
          | inl (user, u) ↦
              elim (Result-cases (session_for_user auth user claim.active_tenant_id w').0) [
                | inl (s', t) ↦ (claim, user, s', c, u, ground arith, t, ground arith)
                | inr (x, t) ↦ absurd (ground arith)
              ]
          | inr (x, u) ↦ absurd (ground arith)
        ]
    | inr (x, c) ↦ absurd (ground arith)
  ]

  -- A session is resumed only for a token that verifies to a claim whose user exists with the same
  -- identifier and session version; it is over the active ones, in their order, of the memberships that
  -- the store answers for that user right after the user was found, and for the tenant of the claim
  -- among them; a super administrator's session has neither.
  pub current_session-TokenGood :
      (token : Str) (w : W) {s : Session}
      → (current_session auth token w).0 ≡ ok s
      → TokenGood token w s
  current_session-TokenGood token w e =
      let (claim, user, s', c, u, same_user, t, is_s) = current_session_run token w e in
      let asked = (auth.identities.find_by_id claim.user_id (auth.sessions.verify token w).1).1 in
      let (same_id, same_version) = same_user_session_lem claim user same_user in
      record {
        claim = claim;
        claimed = c;
        user = user;
        found = u;
        same_id = same_id;
        same_version = same_version;
        session = subst (SessionFor user claim.active_tenant_id) is_s (
            SessionFor-token user claim.active_tenant_id s' token
              (session_for_user-SessionFor auth user claim.active_tenant_id asked t));
        memberships = subst (ListedFor auth user asked) is_s (
            ListedFor-token auth user asked s' token
              (session_for_user-ListedFor auth user claim.active_tenant_id asked t));
        keeps_token = sym (ap (λ (x : Session). x.token) is_s);
      }

  -- What the login checked, issued and recorded.
  pub record LoginGood (raw_email password : Str) (super : Bool) (w : W) (r : Result Session × W)
      : Type 0 where
    pub email : Str
    pub parsed : parse_email auth.runtime raw_email ≡ ok email
    pub user : User
    pub password_hash : Str
    pub found : (auth.identities.find_by_email email w).0 ≡ ok (user, password_hash)
    pub verified : auth.passwords.verify password password_hash ≡ true
    pub role : is_super_administrator user.global_role ≡ super
    pub session : Session
    pub returned : r.0 ≡ ok session
    pub covers : SessionFor user none session
    pub before_issue : W
    pub issued : (auth.sessions.issue (claim_of auth session) before_issue).0 ≡ ok session.token
    pub before_audit : W
    pub audited :
        append_audit auth user.id
          (tenant_id session.active_tenant)
          (str "session.login")
          user.email
          before_audit
        ≡ (ok tt, r.1)

  check_login-eq-ok :
      (password : Str) (super : Bool) (found : Result (User × Str)) {user : User}
      → check_login auth password super found ≡ ok user
      → (password_hash : Str) × (found ≡ ok (user, password_hash))
        × (auth.passwords.verify password password_hash ≡ true)
        × (is_super_administrator user.global_role ≡ super)
  unfolding check_login
  check_login-eq-ok password super (ok (user, hash)) e =
      (hash, ground arith, ground arith, ground arith)
  check_login-eq-ok password super (err x) e = cc

  pub issue-eq-ok :
      (s : Session) (w : W) {s' : Session}
      → (issue auth s w).0 ≡ ok s'
      → ((auth.sessions.issue (claim_of auth s) w).0 ≡ ok s'.token)
        × (record s { token = s'.token } ≡ s')
  unfolding issue
  issue-eq-ok s w e = ground arith

  -- A session is handed out for a login only if the address parses, names a user whose stored hash
  -- fits the password, and the user is a super administrator just if that was asked for; the token
  -- was issued for that very session, and the login was recorded before it was returned.
  pub login_as-LoginGood :
      (raw_email password : Str) (super : Bool) (w : W)
      → fails (login_as auth raw_email password super w).0 ≡ false
      → LoginGood raw_email password super w (login_as auth raw_email password super w)
  unfolding login_as
  login_as-LoginGood raw_email password super w e =
      elim (Result-cases (parse_email auth.runtime raw_email)) [
        | inl (email, p) ↦
            let (found, w1) = auth.identities.find_by_email email w in
            elim (Result-cases (check_login auth password super found)) [
              | inl (user, c) ↦
                  let (hash, f, v, role) = check_login-eq-ok password super found c in
                  let (made, w2) = session_for_user auth user none w1 in
                  elim (Result-cases made) [
                    | inl (s0, t) ↦
                        let (signed, w3) = issue auth s0 w2 in
                        elim (Result-cases signed) [
                          | inl (s, i) ↦
                              let (by, is_s) = issue-eq-ok s0 w2 i in
                              elim (Result-cases
                                (append_audit auth user.id (tenant_id s.active_tenant)
                                  (str "session.login") user.email w3).0) [
                                    | inl (u, a) ↦ record {
                                      email = email;
                                      parsed = p;
                                      user = user;
                                      password_hash = hash;
                                      found = f;
                                      verified = v;
                                      role = role;
                                      session = s;
                                      returned = ground arith;
                                      covers = subst (SessionFor user none) is_s (
                                          SessionFor-token user none s0 s.token
                                            (session_for_user-SessionFor auth user none w1 t));
                                      before_issue = w2;
                                      issued =
                                          subst
                                            (λ x.
                                              (auth.sessions.issue (claim_of auth x) w2).0
                                              ≡ ok x.token)
                                            is_s by;
                                      before_audit = w3;
                                      audited = ground arith;
                                    }
                                    | inr (x, a) ↦ absurd (ground arith)
                                  ]
                          | inr (x, i) ↦ absurd (ground arith)
                        ]
                    | inr (x, t) ↦ absurd (ground arith)
                  ]
              | inr (x, c) ↦ absurd (ground arith)
            ]
        | inr (x, p) ↦ absurd (ground arith)
      ]
