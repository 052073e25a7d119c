-- ===== src/Tables/Roles/Deleted.antt =====
-- The deletion of a role, in terms of the columns.
use mathlib.Core.List.{Mem, mem-cons}
use mathlib.Core.Logic.Or
use clinks.Prelude.{
  ℕ, ◌≡◌, refl, inl, inr, true, false, ◌&&◌, List, [], ◌∷◌, All, Bool-cases, arith, subst,
}
use clinks.Text.{Str, same, same→eq, same_iff}
use clinks.Errors.{Result, ok, err}
use clinks.Domain.{Role, Invitation, custom_kind}
use clinks.Sql.{any_where, delete_where}
use clinks.Sql.Rows.{Keyed}
use clinks.Tables.{Tables, MembershipRow}
use clinks.Tables.Roles.{custom_at, delete_role}

-- A reference that is to another role, or from another tenant.
abbrev pub Elsewhere : Str → Str → Str → Str → Type 0
Elsewhere tenant_id id tenant_id' id' = ¬ ((id' ≡ id) × (tenant_id' ≡ tenant_id))

-- Row by row: the rows of the identifier go, and every other stays as it was.
pub data Without (id : Str) : List Role → List Role → Type 0 where
  nothing : Without id [] []
  goes : {r : Role} {rs ss : List Role} → r.id ≡ id → Without id rs ss → Without id (r ∷ rs) ss
  stays :
      {r : Role} {rs ss : List Role}
      → ¬ (r.id ≡ id)
      → Without id rs ss
      → Without id (r ∷ rs) (r ∷ ss)

-- The role that went.
pub record Custom (tenant_id id : Str) (revision : ℕ) (roles : List Role) : Type 0 where
  pub role : Role
  pub listed : Mem role roles
  pub same_id : role.id ≡ id
  pub same_tenant : role.tenant_id ≡ tenant_id
  pub same_revision : role.revision ≡ revision
  pub custom : role.kind ≡ custom_kind

-- A role that may go, and the tables without it.
pub record Deletable (tenant_id id : Str) (revision : ℕ) (before after : Tables) : Type 0 where
  pub role : Custom tenant_id id revision before.roles
  pub no_member :
      All (λ (m : MembershipRow). Elsewhere tenant_id id m.tenant_id m.role_id) before.memberships
  pub no_invitation :
      All (λ (i : Invitation). Elsewhere tenant_id id i.tenant_id i.role_id) before.invitations
  pub gone : Without id before.roles after.roles
  pub memberships_kept : after.memberships ≡ before.memberships
  pub invitations_kept : after.invitations ≡ before.invitations

not_same : (a b : Str) → same a b ≡ false → ¬ (a ≡ b)
not_same a b n e = let yes = (same_iff a b).1 e in absurd (ground arith)

Elsewhere-refs :
    {A : Type 0} (tenant_of role_of : A → Str) (tenant_id id : Str) (xs : List A)
    → any_where (λ x. same (role_of x) id && same (tenant_of x) tenant_id) xs ≡ false
    → All (λ x. Elsewhere tenant_id id (tenant_of x) (role_of x)) xs
Elsewhere-refs tenant_of role_of tenant_id id [] h = tt
Elsewhere-refs tenant_of role_of tenant_id id (x ∷ xs) h = (
  λ (e, e').
      let yes = (same_iff (role_of x) id).1 e in
      let yes' = (same_iff (tenant_of x) tenant_id).1 e' in absurd (ground arith),
  Elsewhere-refs tenant_of role_of tenant_id id xs (ground arith),
)

module _ (tenant_id id : Str) (revision : ℕ) where
  any_where-Custom :
      (roles : List Role)
      → any_where (custom_at tenant_id id revision) roles ≡ true
      → Custom tenant_id id revision roles
  any_where-Custom [] h = absurd (ground arith)
  any_where-Custom (x ∷ xs) h = elim (Bool-cases (custom_at tenant_id id revision x)) [
    | inl e ↦ record {
      role = x;
      listed = mem-cons.1 (Or.inl refl);
      same_id = same→eq x.id id (ground arith);
      same_tenant = same→eq x.tenant_id tenant_id (ground arith);
      same_revision = ground arith;
      custom = same→eq x.kind custom_kind (ground arith);
    }
    | inr n ↦
        let later = any_where-Custom xs (ground arith) in
        record {
          role = later.role;
          listed = mem-cons.1 (Or.inr later.listed);
          same_id = later.same_id;
          same_tenant = later.same_tenant;
          same_revision = later.same_revision;
          custom = later.custom;
        }
  ]

  absent-Without :
      (roles : List Role)
      → any_where (λ r. same r.id id) roles ≡ false
      → Without id roles (delete_where (custom_at tenant_id id revision) roles)
  absent-Without [] h = nothing
  absent-Without (x ∷ xs) h =
      let later = absent-Without xs (ground arith) in
      let other : same x.id id ≡ false = ground arith in
      rw other (stays (not_same x.id id other) later)

  absent-custom_at :
      (roles : List Role)
      → any_where (λ r. same r.id id) roles ≡ false
      → any_where (custom_at tenant_id id revision) roles ≡ false
  absent-custom_at [] h = refl
  absent-custom_at (x ∷ xs) h = ground (arith, absent-custom_at xs)

  delete-Without :
      (roles : List Role)
      → Keyed (λ r. r.id) roles
      → any_where (custom_at tenant_id id revision) roles ≡ true
      → Without id roles (delete_where (custom_at tenant_id id revision) roles)
  delete-Without [] u h = absurd (ground arith)
  delete-Without (x ∷ xs) u h = elim (Bool-cases (same x.id id)) [
    | inl e ↦
        let x_id = same→eq x.id id e in
        let absent = subst (λ k. any_where (λ r. same r.id k) xs ≡ false) x_id u.0 in
        let none_later = absent-custom_at xs absent in
        let here : custom_at tenant_id id revision x ≡ true = ground arith in
        rw here (goes x_id (absent-Without xs absent))
    | inr n ↦
        let later = delete-Without xs u.1 (ground arith) in rw n (stays (not_same x.id id n) later)
  ]

-- Where the primary key of roles holds, a role is deleted only if it is a custom role of the tenant at the
-- revision named, to which no membership and no invitation of the tenant refers; afterwards the roles
-- are those with another identifier, as they were, and memberships and invitations have not changed.
pub delete_role-Deletable :
    (tenant_id id : Str) (revision : ℕ) (actor_id : Str) (event_id : Result Str) (db : Tables)
    → Keyed (λ r. r.id) db.roles
    → (delete_role tenant_id id revision actor_id event_id db).0 ≡ ok tt
    → Deletable tenant_id id revision db (delete_role tenant_id id revision actor_id event_id db).1
unfolding delete_role
delete_role-Deletable tenant_id id revision actor_id (err e) db u h = absurd (ground arith)
delete_role-Deletable tenant_id id revision actor_id (ok event) db u h =
    let at = custom_at tenant_id id revision in
    let found : any_where at db.roles ≡ true = ground arith in
    let gone : (delete_role tenant_id id revision actor_id (ok event) db).1.roles
        ≡ delete_where at db.roles =
      ground arith in
    record {
      role = any_where-Custom tenant_id id revision db.roles found;
      no_member =
          Elsewhere-refs (λ (m : MembershipRow). m.tenant_id) (λ (m : MembershipRow). m.role_id)
            tenant_id id db.memberships (ground arith);
      no_invitation =
          Elsewhere-refs (λ (i : Invitation). i.tenant_id) (λ (i : Invitation). i.role_id) tenant_id
            id db.invitations (ground arith);
      gone = rw gone (delete-Without tenant_id id revision db.roles u found);
      memberships_kept = ground arith;
      invitations_kept = ground arith;
    }
