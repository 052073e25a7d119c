-- ===== src/Auth/Sessions.antt =====
-- What a session that the service hands out says about its user's memberships.
use clinks.Prelude.{
  ◌≡◌, refl, sym, ap, ◌∙◌, ◌⊎◌, inl, inr, List, [], ◌∷◌, Option, none, some, arith, Bool-cases,
  Option-cases, eq_of_some, subst, All, if◌then◌else◌,
}
use clinks.Text.{Str, same, same→eq, same_iff}
use clinks.Errors.{Result, ok, ok-injective, Result-cases}
use clinks.Exec.{>>=-eq-ok}
use clinks.Domain.{Tenant, User, Membership, Session, is_super_administrator, active_status}
use clinks.Auth.{
  Auth, active_memberships, tenant_among, chosen_tenant, select_session, session_for_user,
}

-- Some membership of the list is in the tenant.
abbrev pub Offers : Tenant → List Membership → Type 0
Offers t [] = ⊥
Offers t (m ∷ ms) = (m.tenant ≡ t) ⊎ Offers t ms

abbrev pub AllActive : List Membership → Type 0
AllActive = All (λ m. m.status ≡ active_status)

-- The tenant is the one asked for, if one was.
abbrev pub Answers : Option Str → Tenant → Type 0
Answers none t = Unit
Answers (some id) t = t.id ≡ id

active_memberships-AllActive : (ms : List Membership) → AllActive (active_memberships ms)
unfolding active_memberships
active_memberships-AllActive [] = tt
active_memberships-AllActive (m ∷ ms) =
    ground (arith, same→eq m.status active_status, active_memberships-AllActive ms)

tenant_among-Offers :
    (id : Str) (ms : List Membership) {t : Tenant}
    → tenant_among id ms ≡ some t
    → (t.id ≡ id) × Offers t ms
unfolding tenant_among
tenant_among-Offers id [] e = cc
tenant_among-Offers id (m ∷ ms) e = elim (Bool-cases (same m.tenant.id id)) [
  | inl here ↦
      let this : m.tenant ≡ _ = eq_of_some (rw here at e) in
      (sym (ap (λ (u : Tenant). u.id) this) ∙ same→eq m.tenant.id id here, inl this)
  | inr there ↦
      let (answer, later) = tenant_among-Offers id ms (rw there at e) in (answer, inr later)
]

chosen_tenant-Offers :
    (requested : Option Str) (ms : List Membership) {t : Tenant}
    → chosen_tenant requested ms ≡ some t
    → Answers requested t × Offers t ms
chosen_tenant-Offers none [] e = cc
chosen_tenant-Offers none (m ∷ ms) e = (tt, inl (eq_of_some e))
chosen_tenant-Offers (some id) ms e = tenant_among-Offers id ms e

-- A list of memberships, and those of them that are active.
pub data ActiveOf : List Membership → List Membership → Type 0 where
  nothing : ActiveOf [] []
  keeps :
      {m : Membership} {listed held : List Membership}
      → m.status ≡ active_status
      → ActiveOf listed held
      → ActiveOf (m ∷ listed) (m ∷ held)
  drops :
      {m : Membership} {listed held : List Membership}
      → ¬ (m.status ≡ active_status)
      → ActiveOf listed held
      → ActiveOf (m ∷ listed) held

active_memberships-ActiveOf : (ms : List Membership) → ActiveOf ms (active_memberships ms)
unfolding active_memberships
active_memberships-ActiveOf [] = nothing
active_memberships-ActiveOf (m ∷ ms) = elim (Bool-cases (same m.status active_status)) [
  | inl e ↦ rw e (keeps (same→eq m.status active_status e) (active_memberships-ActiveOf ms))
  | inr n ↦
      let inactive : ¬ (m.status ≡ active_status) =
        λ e. let yes = (same_iff m.status active_status).1 e in absurd (ground arith) in
      rw n (drops inactive (active_memberships-ActiveOf ms))
]

-- A session over memberships: all of them active, and its tenant one of theirs.
pub record SessionOver (user : User) (requested : Option Str) (s : Session) : Type 0 where
  pub of_user : s.user ≡ user
  pub active : AllActive s.memberships
  pub tenant : Tenant
  pub is_tenant : s.active_tenant ≡ some tenant
  pub offered : Offers tenant s.memberships
  pub answers : Answers requested tenant

select_session-SessionOver :
    (user : User) (requested : Option Str) (ms : List Membership) {s : Session}
    → AllActive ms
    → select_session user requested ms ≡ ok s
    → SessionOver user requested s
unfolding select_session
select_session-SessionOver user requested ms a e =
    elim (Option-cases (chosen_tenant requested ms)) [
      | inl nobody ↦ let e' = rw nobody at e in cc e'
      | inr (t, chosen) ↦
          let (answers, offers) = chosen_tenant-Offers requested ms chosen in
          subst (SessionOver user requested) (ok-injective (rw chosen at e)) (record {
            of_user = refl;
            active = a;
            tenant = t;
            is_tenant = refl;
            offered = offers;
            answers = answers;
          })
    ]

-- A super administrator's session, which has no tenant.
pub record SessionBare (user : User) (s : Session) : Type 0 where
  pub of_user : s.user ≡ user
  pub no_tenant : s.active_tenant ≡ none
  pub no_memberships : s.memberships ≡ []

abbrev pub SessionFor : User → Option Str → Session → Type 0
SessionFor user requested s =
    if is_super_administrator user.global_role
    then SessionBare user s
    else SessionOver user requested s

module _ {W : Type 0} (auth : Auth W) where
  -- A session is over active memberships of the user, its tenant is one of theirs and the one asked
  -- for; a super administrator's session has neither.
  pub session_for_user-SessionFor :
      (user : User) (requested : Option Str) (w : W) {s : Session}
      → (session_for_user auth user requested w).0 ≡ ok s
      → SessionFor user requested s
  unfolding session_for_user
  session_for_user-SessionFor user requested w e =
      elim (Bool-cases (is_super_administrator user.global_role)) [
        | inl super ↦ rw super (
            subst (SessionBare user) (ok-injective (rw super at e))
              (record { of_user = refl; no_tenant = refl; no_memberships = refl }))
        | inr plain ↦
            let e' = rw plain at e in
            let (ms, _, run) =
              >>=-eq-ok (auth.memberships.memberships_for_user user.id)
                (λ ms w'. (select_session user requested (active_memberships ms), w')) w e' in
            rw plain (
              select_session-SessionOver user requested (active_memberships ms)
                (active_memberships-AllActive ms)
                (sym (ap (λ (r : Result Session × W). r.0) run) ∙ e'))
      ]

-- The memberships of a session are those that the store answered for the user, less the inactive ones.
pub record Listed {W : Type 0} (auth : Auth W) (user : User) (asked : W) (s : Session)
    : Type 0 where
  pub listed : List Membership
  pub answered : (auth.memberships.memberships_for_user user.id asked).0 ≡ ok listed
  pub active : ActiveOf listed s.memberships

-- A super administrator's session asks for none.
abbrev pub ListedFor : {W : Type 0} → Auth W → User → W → Session → Type 0
ListedFor auth user asked s =
    if is_super_administrator user.global_role then s.memberships ≡ [] else Listed auth user asked s

select_session_lem :
    (user : User) (requested : Option Str) (ms : List Membership) {s : Session}
    → select_session user requested ms ≡ ok s
    → s.memberships ≡ ms
unfolding select_session
select_session_lem user requested ms e = elim (Option-cases (chosen_tenant requested ms)) [
  | inl nobody ↦ absurd (ground arith)
  | inr (t, chosen) ↦ ground arith
]

module _ {W : Type 0} (auth : Auth W) where
  pub session_for_user-ListedFor :
      (user : User) (requested : Option Str) (w : W) {s : Session}
      → (session_for_user auth user requested w).0 ≡ ok s
      → ListedFor auth user w s
  unfolding session_for_user
  session_for_user-ListedFor user requested w {s = s} e =
      elim (Bool-cases (is_super_administrator user.global_role)) [
        | inl super ↦ rw super (ground arith)
        | inr plain ↦ elim (Result-cases (auth.memberships.memberships_for_user user.id w).0) [
          | inr (x, r) ↦ absurd (ground arith)
          | inl (ms, r) ↦
              let held =
                select_session_lem user requested (active_memberships ms) {s = s} (ground arith) in
              rw plain (record {
                listed = ms;
                answered = r;
                active = rw held (active_memberships-ActiveOf ms);
              })
        ]
      ]

-- None of this is about the token.
pub SessionFor-token :
    (user : User) (requested : Option Str) (s : Session) (t : Str)
    → SessionFor user requested s
    → SessionFor user requested (record s { token = t })
SessionFor-token user requested s t f =
    elim (Bool-cases (is_super_administrator user.global_role)) [
      | inl super ↦
          let b = rw super at f in
          rw super (record {
            of_user = b.of_user;
            no_tenant = b.no_tenant;
            no_memberships = b.no_memberships;
          })
      | inr plain ↦
          let o = rw plain at f in
          rw plain (record {
            of_user = o.of_user;
            active = o.active;
            tenant = o.tenant;
            is_tenant = o.is_tenant;
            offered = o.offered;
            answers = o.answers;
          })
    ]

pub ListedFor-token :
    {W : Type 0} (auth : Auth W) (user : User) (asked : W) (s : Session) (t : Str)
    → ListedFor auth user asked s
    → ListedFor auth user asked (record s { token = t })
ListedFor-token auth user asked s t f =
    elim (Bool-cases (is_super_administrator user.global_role)) [
      | inl super ↦ rw super (rw super at f)
      | inr plain ↦
          let l = rw plain at f in
          rw plain (record { listed = l.listed; answered = l.answered; active = l.active })
    ]
