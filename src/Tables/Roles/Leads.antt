-- ===== src/Tables/Roles/Leads.antt =====
-- The roles of administrators among changed rows, and primary keys of roles.
use clinks.Prelude.{
  ◌≡◌, refl, inl, inr, Bool, true, false, List, [], ◌∷◌, ◌++◌, if◌then◌else◌, Bool-cases, arith,
  if_either,
}
use clinks.Text.{Str, same, contains}
use clinks.Errors.{validation}
use clinks.Exec.{Act, Keeps, require_that-Keeps, >>=-Keeps}
use clinks.Domain.{Role, administrator_kind}
use clinks.Sql.{any_where, first_where, update_where, delete_where}
use clinks.Sql.Rows.{Keyed, any_where_mono}
use clinks.Tables.{Tables, administers, kind_is}
use clinks.Tables.Members.Administrators.{Administered}
use clinks.Permission.{is_valid}
use clinks.Tables.Roles.{role_at, add_permission, insert_role_permissions}

abbrev pub has_id : Str → Role → Bool
has_id id r = same r.id id

abbrev pub leads : Str → List Role → Bool
leads id roles = kind_is administrator_kind (first_where (has_id id) roles)

-- New roles under which every identifier of an administrator's role still is one.
pub roles-Administered :
    (t : Str) (db : Tables) (roles : List Role)
    → ((id : Str) → leads id db.roles ≡ true → leads id roles ≡ true)
    → Keyed (λ r. r.id) roles
    → Administered t db
    → Administered t (record db { roles = roles })
roles-Administered t db roles kept keyed a = record {
  roles = keyed;
  memberships = a.memberships;
  some_one =
      any_where_mono (administers db t) (administers (record db { roles = roles }) t) db.memberships
        (λ m h. ground (arith, kept m.role_id)) a.some_one;
}

pub leads-append :
    (id : Str) (r : Role) (roles : List Role)
    → leads id roles ≡ true
    → leads id (roles ++ r ∷ []) ≡ true
leads-append id r [] h = absurd (ground arith)
leads-append id r (x ∷ xs) h = elim (Bool-cases (has_id id x)) [
  | inl e ↦ ground arith
  | inr n ↦ ground (arith, leads-append id r xs)
]

pub leads-update :
    (id : Str) (p : Role → Bool) (f : Role → Role) (roles : List Role)
    → ((r : Role) → (f r).id ≡ r.id)
    → ((r : Role) → (f r).kind ≡ r.kind)
    → leads id (update_where p f roles) ≡ leads id roles
leads-update id p f [] i k = refl
leads-update id p f (x ∷ xs) i k = elim (Bool-cases (p x)) [
  | inl e ↦ elim (Bool-cases (has_id id x)) [
    | inl h ↦ rw (e, i x, h, k x) refl
    | inr n ↦ rw (e, i x, n, leads-update id p f xs i k) refl
  ]
  | inr m ↦ elim (Bool-cases (has_id id x)) [
    | inl h ↦ rw (m, h) refl
    | inr n ↦ rw (m, n, leads-update id p f xs i k) refl
  ]
]

pub leads-delete :
    (id : Str) (p : Role → Bool) (roles : List Role)
    → ((r : Role) → p r ≡ true → same r.kind administrator_kind ≡ false)
    → leads id roles ≡ true
    → leads id (delete_where p roles) ≡ true
leads-delete id p [] s h = absurd (ground arith)
leads-delete id p (x ∷ xs) s h = elim (Bool-cases (p x)) [
  | inl e ↦ elim (Bool-cases (has_id id x)) [
    | inl i ↦ absurd (ground (arith, s x e))
    | inr n ↦ ground (arith, leads-delete id p xs s)
  ]
  | inr m ↦ elim (Bool-cases (has_id id x)) [
    | inl i ↦ ground arith
    | inr n ↦ ground (arith, leads-delete id p xs s)
  ]
]

id_absent-delete :
    (k : Str) (p : Role → Bool) (roles : List Role)
    → any_where (has_id k) roles ≡ false
    → any_where (has_id k) (delete_where p roles) ≡ false
id_absent-delete k p [] h = refl
id_absent-delete k p (x ∷ xs) h = elim (Bool-cases (p x)) [
  | inl e ↦ ground (arith, id_absent-delete k p xs)
  | inr n ↦ ground (arith, id_absent-delete k p xs)
]

pub Keyed-delete :
    (p : Role → Bool) (roles : List Role)
    → Keyed (λ x. x.id) roles
    → Keyed (λ x. x.id) (delete_where p roles)
Keyed-delete p [] u = tt
Keyed-delete p (x ∷ xs) u = elim (Bool-cases (p x)) [
  | inl e ↦ rw e (Keyed-delete p xs u.1)
  | inr n ↦ rw n (id_absent-delete x.id p xs u.0, Keyed-delete p xs u.1)
]

-- The permissions of roles may be written where a predicate lets roles change but for their identifiers
-- and kinds.
module _ (P : Tables → Type 0)
    (closed : (p : Role → Bool) (f : Role → Role) (db : Tables)
      → ((r : Role) → (f r).id ≡ r.id)
      → ((r : Role) → (f r).kind ≡ r.kind)
      → P db
      → P (record db { roles = update_where p f db.roles })) where
  add-Keeps : (tenant_id id p : Str) → Keeps P (add_permission tenant_id id p)
  add-Keeps tenant_id id p = record {
    keeps = λ db a. closed (role_at tenant_id id) _ db (λ r. refl) (λ r. refl) a;
  }

  pub insert_permissions-Keeps :
      (tenant_id id : Str) (seen permissions : List Str)
      → Keeps P (insert_role_permissions tenant_id id seen permissions)
  unfolding insert_role_permissions
  insert_permissions-Keeps tenant_id id seen [] = record { keeps = λ db a. a }
  insert_permissions-Keeps tenant_id id seen (p ∷ ps) =
      let again = contains seen p in
      >>=-Keeps P _ _
        (>>=-Keeps P _ _ (require_that-Keeps P (is_valid p) validation) (λ u.
          if_either (λ (m : Act Tables (Unit {0})). Keeps P m) again (record { keeps = λ db a. a })
            (add-Keeps tenant_id id p)))
        (λ u. insert_permissions-Keeps tenant_id id (if again then seen else p ∷ seen) ps)
