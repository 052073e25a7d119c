-- ===== src/Tables/Joining/Active.antt =====
-- `createMembership` leaves the user with an active membership and touches no invitation.
use clinks.Prelude.{
  ◌≡◌, refl, ◌∙◌, and-eq-true, inl, inr, ℕ, Bool, true, ◌&&◌, List, Option, none, some, arith,
  Bool-cases, Option-cases,
}
use clinks.Text.{Str, same, same→eq, same_iff}
use clinks.Errors.{Result, ok, err}
use clinks.Exec.{require_that-Keeps}
use clinks.Exec.Hoare.{Ensures, >>=-Ensures, Keeps-Ensures}
use clinks.Sql.{any_where, first_where}
use clinks.Sql.Rows.{any_where-append, any_where-updated, first_where-passes}
use clinks.Domain.{Tenant, Role, inactive_status, Membership, Invitation, active_status}
use clinks.Tables.{Tables, MembershipRow}
use clinks.Tables.Joining.{
  new_row, invitation_membership, reactivate, insert_membership, membership_for, create_membership,
  of_user, reactivated,
}

-- An active membership of the user in the tenant of the invitation, with its role.
abbrev pub joins : Invitation → Str → MembershipRow → Bool
joins invitation user_id row =
    of_user invitation.tenant_id user_id row
    && same row.status active_status
    && same row.role_id invitation.role_id

-- The invitations and the clock are those given.
pub record Framed (invitations : List Invitation) (now : ℕ) (db : Tables) : Type 0 where
  pub rows : db.invitations ≡ invitations
  pub clock : db.now ≡ now

-- So they are, and the user has the membership.
pub record Joined (invitations : List Invitation) (now : ℕ) (invitation : Invitation)
    (user_id : Str) (db : Tables) : Type 0 where
  pub framed : Framed invitations now db
  pub member : any_where (joins invitation user_id) db.memberships ≡ true

-- What `invitationMembership` fills in.
record Filled (invitation : Invitation) (user_id : Str) (m : Membership) : Type 0 where
  tenant : m.tenant.id ≡ invitation.tenant_id
  user : m.user_id ≡ user_id
  role : m.role_id ≡ invitation.role_id
  status : m.status ≡ active_status

Filled-joins :
    (invitation : Invitation) (user_id : Str) (m : Membership)
    → Filled invitation user_id m
    → (row : MembershipRow) → row.tenant_id ≡ m.tenant.id
    → row.user_id ≡ m.user_id
    → row.status ≡ active_status
    → row.role_id ≡ m.role_id
    → joins invitation user_id row ≡ true
Filled-joins invitation user_id m f row t u s r =
    let t' = (same_iff row.tenant_id invitation.tenant_id).1 (t ∙ f.tenant) in
    let u' = (same_iff row.user_id user_id).1 (u ∙ f.user) in
    let s' = (same_iff row.status active_status).1 s in
    let r' = (same_iff row.role_id invitation.role_id).1 (r ∙ f.role) in
    ground (arith, t', u', s', r')

module _ (is : List Invitation) (now : ℕ) (invitation : Invitation) (user_id : Str) where
  invitation_membership-Filled :
      Ensures
        (Framed is now)
        (invitation_membership invitation user_id)
        (λ m db. Framed is now db × Filled invitation user_id m)
  unfolding invitation_membership
  invitation_membership-Filled = record {
    at = λ db p m h.
        let by_tenant = λ (x : Tenant). same x.id invitation.tenant_id in
        let by_role =
          λ (r : Role). same r.id invitation.role_id && same r.tenant_id invitation.tenant_id in
        elim (Option-cases (first_where by_tenant db.tenants)) [
          | inl n ↦ absurd (ground arith)
          | inr (tenant, e) ↦ elim (Option-cases (first_where by_role db.roles)) [
            | inl n ↦ absurd (ground arith)
            | inr (role, e') ↦
                let found : tenant.id ≡ invitation.tenant_id =
                  same→eq _ _ (first_where-passes by_tenant db.tenants tenant e) in
                (
                  p,
                  record {
                    tenant = ground arith;
                    user = ground arith;
                    role = ground arith;
                    status = ground arith;
                  },
                )
          ]
        ];
  }

  abbrev Start : Membership → Option MembershipRow → Tables → Type 0
  Start m o db =
      Framed is now db
      × Filled invitation user_id m
      × (first_where (of_user invitation.tenant_id user_id) db.memberships ≡ o)

  insert-Joined :
      (m : Membership) (uuid : Result Str)
      → Ensures
          (Start m none)
          (insert_membership m uuid)
          (λ m' db. Joined is now invitation user_id db)
  unfolding insert_membership
  insert-Joined m (err e) = record { at = λ db p a h. absurd (ground arith) }
  insert-Joined m (ok id) = record {
    at = λ db p a h. record {
      framed = record { rows = p.0.rows; clock = p.0.clock };
      member =
          any_where-append (joins invitation user_id) db.memberships (new_row m id db.now)
            (Filled-joins invitation user_id m p.1 (new_row m id db.now) refl refl p.1.status refl);
    };
  }

  reactivate-Joined :
      (m : Membership) (row : MembershipRow)
      → Ensures
          (Start m (some row))
          (reactivate m row)
          (λ m' db. Joined is now invitation user_id db)
  unfolding reactivate
  reactivate-Joined m row = record {
    at = λ db p a h. elim (Bool-cases (same row.status inactive_status)) [
      | inr n ↦ absurd (ground arith)
      | inl e ↦ rw e (record {
        framed = record { rows = p.0.rows; clock = p.0.clock };
        member =
            any_where-updated (joins invitation user_id) (of_user m.tenant.id m.user_id)
              (reactivated m.role_id db.now) db.memberships row
              (λ y k.
                let (k0, k1) = and-eq-true _ _ k in
                Filled-joins invitation user_id m p.1 (reactivated m.role_id db.now y)
                  (same→eq _ _ k0) (same→eq _ _ k1) refl refl)
              (rw (p.1.tenant, p.1.user) p.2);
      })
    ];
  }

  membership_for-Joined :
      (m : Membership) (uuid : Result Str) (o : Option MembershipRow)
      → Ensures (Start m o) (membership_for m uuid o) (λ m' db. Joined is now invitation user_id db)
  unfolding membership_for
  membership_for-Joined m uuid none = insert-Joined m uuid
  membership_for-Joined m uuid (some row) =
      >>=-Ensures _ _
        (Keeps-Ensures (Start m (some row)) _ (require_that-Keeps (Start m (some row)) _ _))
        (λ u. reactivate-Joined m row)

  pub create_membership-Joined :
      (uuid : Result Str)
      → Ensures
          (Framed is now)
          (create_membership invitation user_id uuid)
          (λ m db. Joined is now invitation user_id db)
  unfolding create_membership
  create_membership-Joined uuid = >>=-Ensures _ _ invitation_membership-Filled (λ m.
      >>=-Ensures {Q = λ o db. Start m o db}
        (λ db. (ok (first_where (of_user invitation.tenant_id user_id) db.memberships), db))
        (λ o. membership_for m uuid o) (record { at = λ db p o h. (p.0, p.1, ground arith) })
        (λ o. membership_for-Joined m uuid o))
