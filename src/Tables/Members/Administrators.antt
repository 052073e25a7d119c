-- ===== src/Tables/Members/Administrators.antt =====
-- Why a change of a membership leaves an active administrator: another is counted, or the member
-- stays one, or was none.
use clinks.Prelude.{
  ◌≡◌, subst, inl, inr, ◌⊎◌, true, false, ◌&&◌, not, some, arith, Bool-cases, and-eq-true,
}
use clinks.Text.{Str, same, same→eq}
use clinks.Sql.{first_where, any_where}
use clinks.Sql.Rows.{Keyed, any_where-others, any_where_mono, first_where-key}
use clinks.Domain.{Membership, Role, administrator_kind, active_status}
use clinks.Tables.{Tables, MembershipRow, role_of, administers}
use clinks.Tables.Members.{
  at_key, removes_administrator, other_administrators, at_revision, changed_row,
}

-- Primary keys of the two tables, and some active administrator of the tenant.
pub record Administered (tenant_id : Str) (db : Tables) : Type 0 where
  pub roles : Keyed (λ r. r.id) db.roles
  pub memberships : Keyed (λ m. m.id) db.memberships
  pub some_one : any_where (administers db tenant_id) db.memberships ≡ true

module _ (t : Str) (membership : Membership) where
  abbrev pub id : Str
  id = membership.id

  abbrev pub tenant_id : Str
  tenant_id = membership.tenant.id

  -- The membership that is locked, with a role of the kind that was read.
  pub record Locked (kind : Str) (db : Tables) : Type 0 where
    pub row : MembershipRow
    pub role : Role
    pub found : first_where (at_key id tenant_id) db.memberships ≡ some row
    pub role_is : role_of db row.role_id ≡ some role
    pub kind_eq : role.kind ≡ kind

  -- The role that the membership is to have.
  pub record Target (kind : Str) (db : Tables) : Type 0 where
    pub role : Role
    pub found :
        first_where (λ r. same r.id membership.role_id && same r.tenant_id tenant_id) db.roles
        ≡ some role
    pub kind_eq : role.kind ≡ kind

  pub record Ready (current target : Str) (db : Tables) : Type 0 where
    pub administered : Administered t db
    pub locked : Locked current db
    pub new_role : Target target db
    pub allowed :
        (removes_administrator membership.status current target ≡ false)
        ⊎ (other_administrators db tenant_id id ≡ true)

  -- The rows that the update leaves alone suffice.
  abbrev pub Others : Tables → Type 0
  Others db =
      any_where (λ r. administers db t r && not (at_revision membership r)) db.memberships ≡ true

  -- Whoever is updated is an administrator after it.
  abbrev pub Promoted : Tables → Type 0
  Promoted db =
      (r : MembershipRow)
      → at_revision membership r ≡ true
      → administers db t (changed_row membership db.now r) ≡ true

  same-false : (a b c : Str) → same a b ≡ true → same b c ≡ false → same a c ≡ false
  same-false a b c h n = rw (same→eq a b h) n

  -- Another tenant's administrators are no row of the update.
  other_tenant :
      (db : Tables)
      → same tenant_id t ≡ false
      → any_where (administers db t) db.memberships ≡ true
      → Others db
  other_tenant db n h =
      any_where_mono (administers db t) (λ r. administers db t r && not (at_revision membership r))
        db.memberships (λ r a. ground (arith, same-false r.tenant_id tenant_id t)) h

  -- Where the count found another administrator.
  counted : (db : Tables) → tenant_id ≡ t → other_administrators db tenant_id id ≡ true → Others db
  counted db e h =
      any_where_mono (λ r. administers db t r && not (same r.id id))
        (λ r. administers db t r && not (at_revision membership r)) db.memberships
        (λ r a. ground arith) (subst (λ x. other_administrators db x id ≡ true) e h)

  -- Where the membership was no administrator.
  no_administrator :
      (db : Tables) (current target : Str) (r : Ready current target db)
      → same current administrator_kind ≡ false
      → Others db
  no_administrator db current target r n =
      let row = r.locked.row in
      let not_admin : administers db t row ≡ false =
        ground (arith, r.locked.role_is, r.locked.kind_eq, n) in
      let found =
        any_where-others (λ m. m.id) id (administers db t) (at_key id tenant_id) db.memberships row
          r.administered.memberships (λ m h. (and-eq-true _ _ h).0) r.locked.found not_admin
          r.administered.some_one in
      any_where_mono (λ m. administers db t m && not (at_key id tenant_id m))
        (λ m. administers db t m && not (at_revision membership m)) db.memberships
        (λ m a. ground arith) found

  promoted :
      (db : Tables) (current target : Str) (r : Ready current target db)
      → tenant_id ≡ t
      → same membership.status active_status ≡ true
      → same target administrator_kind ≡ true
      → Promoted db
  promoted db current target r e s k row h =
      let role_is : role_of db membership.role_id ≡ some r.new_role.role =
        first_where-key (λ x. x.id) membership.role_id (λ x. same x.tenant_id tenant_id) db.roles
          r.new_role.role r.administered.roles r.new_role.found in
      ground (arith, role_is, r.new_role.kind_eq, k, s, e)

  pub Ready-cases :
      (db : Tables) (current target : Str) → Ready current target db → Others db ⊎ Promoted db
  unfolding removes_administrator
  Ready-cases db current target r = elim (Bool-cases (same tenant_id t)) [
    | inr n ↦ inl (other_tenant db n r.administered.some_one)
    | inl same_tenant ↦
        let e = same→eq tenant_id t same_tenant in
        elim r.allowed [
          | inr other ↦ inl (counted db e other)
          | inl kept ↦ elim (Bool-cases (same current administrator_kind)) [
            | inr n ↦ inl (no_administrator db current target r n)
            | inl admin ↦ inr (promoted db current target r e (ground arith) (ground arith))
          ]
        ]
  ]
