-- ===== src/Tables/Tenants/Defaults.antt =====
-- The default roles of a new tenant.
use clinks.Prelude.{
  ◌≡◌, refl, inl, inr, Bool, true, false, ◌&&◌, ◌||◌, not, List, [], ◌∷◌, ◌++◌, Option, Bool-cases,
  arith, if_either, subst,
}
use clinks.Text.{Str, str, same, same_refl}
use clinks.Errors.{Result, ok-injective}
use clinks.Exec.{Keeps, pure, lift}
use clinks.Exec.Hoare.{Ensures, >>=-Ensures, Keeps-Ensures}
use clinks.Domain.{Tenant, Role, User, administrator_kind, user_kind}
use clinks.Permission.{all_permissions, default_user_permissions}
use clinks.Sql.{any_where, update_where}
use clinks.Sql.Rows.{Keyed, Keyed-update, Keyed-append}
use clinks.Tables.{Tables}
use clinks.Tables.Users.{insert_user}
use clinks.Tables.Roles.{inserted, same_name}
use clinks.Tables.Roles.Leads.{has_id, leads, leads-append, leads-update, insert_permissions-Keeps}
use clinks.Tables.Tenants.{
  insert_tenant, insert_default_role, default_role, create_default_roles, tenant_name_fits,
  new_role,
}

-- The primary keys of roles and memberships.
pub record Keys (db : Tables) : Type 0 where
  pub roles : Keyed (λ r. r.id) db.roles
  pub memberships : Keyed (λ m. m.id) db.memberships

-- With a role of an administrator under an identifier.
pub record Led (id : Str) (db : Tables) : Type 0 where
  pub keys : Keys db
  pub leading : leads id db.roles ≡ true

leads_new :
    (r : Role) (roles : List Role)
    → any_where (has_id r.id) roles ≡ false
    → same r.kind administrator_kind ≡ true
    → leads r.id (roles ++ r ∷ []) ≡ true
leads_new r [] h k = rw (same_refl r.id) k
leads_new r (x ∷ xs) h k = ground (arith, leads_new r xs)

pub tenant-Keys : (tenant : Tenant) → Keeps Keys (insert_tenant tenant)
tenant-Keys tenant = record {
  keeps = λ db k.
      if_either (λ (r : Result (Unit {0}) × Tables). Keys r.1)
        (not (tenant_name_fits tenant.name) || any_where (λ t. same t.id tenant.id) db.tenants) k
        (record { roles = k.roles; memberships = k.memberships });
}

pub user-Keys : (user : User) (hash : Option Str) → Keeps Keys (insert_user user hash)
unfolding insert_user
user-Keys user hash = record {
  keeps = λ db k.
      if_either (λ (r : Result (Unit {0}) × Tables). Keys r.1)
        (any_where (λ u. same u.user.email user.email) db.users) k
        (record { roles = k.roles; memberships = k.memberships });
}

closed-Keys :
    (p : Role → Bool) (f : Role → Role) (db : Tables)
    → ((r : Role) → (f r).id ≡ r.id)
    → Keys db
    → Keys (record db { roles = update_where p f db.roles })
closed-Keys p f db i k = record {
  roles = Keyed-update (λ r. r.id) p f db.roles i k.roles;
  memberships = k.memberships;
}

closed-Led :
    (id : Str) (p : Role → Bool) (f : Role → Role) (db : Tables)
    → ((r : Role) → (f r).id ≡ r.id)
    → ((r : Role) → (f r).kind ≡ r.kind)
    → Led id db
    → Led id (record db { roles = update_where p f db.roles })
closed-Led id p f db i k l = record {
  keys = closed-Keys p f db i l.keys;
  leading = rw (leads-update id p f db.roles i k) l.leading;
}

module _ (lower : Str → Str) where
  -- A default role that comes in, and the roles before and after it.
  inserted-Ensures :
      (role : Role) (P : Tables → Type 0) (Q : Tables → Type 0)
      → ((db : Tables)
          → P db
          → any_where (has_id role.id) db.roles ≡ false
          → Q (record db { roles = db.roles ++ inserted db.now role ∷ [] }))
      → Ensures P (insert_default_role lower role) (λ u db. Q db)
  inserted-Ensures role P Q step = record {
    at = λ db p u h.
        let clash =
          any_where (λ r. same r.id role.id) db.roles
          || any_where (same_name lower role.tenant_id role.name) db.roles
          || any_where (λ r. same r.tenant_id role.tenant_id && same r.kind role.kind) db.roles
          || not (any_where (λ t. same t.id role.tenant_id) db.tenants) in
        elim (Bool-cases clash) [
          | inl e ↦ absurd (ground arith)
          | inr n ↦ rw n (step db p (ground arith))
        ];
  }

  -- The role of the administrator comes in, then its permissions.
  administrator-Led :
      (role : Role)
      → same role.kind administrator_kind ≡ true
      → Ensures Keys (default_role lower role) (λ u db. Led role.id db)
  administrator-Led role k =
      >>=-Ensures {Q = λ u db. Led role.id db} (insert_default_role lower role) _
        (inserted-Ensures role Keys (Led role.id) (λ db keys free. record {
          keys = record {
            roles = Keyed-append (λ r. r.id) (inserted db.now role) db.roles free keys.roles;
            memberships = keys.memberships;
          };
          leading = leads_new (inserted db.now role) db.roles free k;
        }))
        (λ u. Keeps-Ensures (Led role.id) _ (
          insert_permissions-Keeps (Led role.id) (closed-Led role.id) role.tenant_id role.id []
            role.permissions))

  other-Led :
      (id : Str) (role : Role) → Ensures (Led id) (default_role lower role) (λ u db. Led id db)
  other-Led id role =
      >>=-Ensures {Q = λ u db. Led id db} (insert_default_role lower role) _
        (inserted-Ensures role (Led id) (Led id) (λ db l free. record {
          keys = record {
            roles = Keyed-append (λ r. r.id) (inserted db.now role) db.roles free l.keys.roles;
            memberships = l.keys.memberships;
          };
          leading = leads-append id (inserted db.now role) db.roles l.leading;
        }))
        (λ u. Keeps-Ensures (Led id) _ (
          insert_permissions-Keeps (Led id) (closed-Led id) role.tenant_id role.id []
            role.permissions))

  pub lift-Ensures :
      {A : Type 0} (P : Tables → Type 0) (r : Result A) → Ensures P (lift r) (λ a db. P db)
  lift-Ensures P r = record { at = λ db p a h. p }

  pub default_roles-Led :
      (tenant_id : Str) (a u : Result Str)
      → Ensures Keys (create_default_roles lower tenant_id a u) (λ role db. Led role.id db)
  unfolding same
  default_roles-Led tenant_id a u =
      >>=-Ensures {Q = λ x db. Keys db} (lift a) _ (lift-Ensures Keys a) (λ a'.
        >>=-Ensures {Q = λ x db. Keys db} (lift u) _ (lift-Ensures Keys u) (λ u'.
          let role =
            new_role tenant_id (str "Administrator") administrator_kind all_permissions a' in
          let user = new_role tenant_id (str "User") user_kind default_user_permissions u' in
          >>=-Ensures {Q = λ x db. Led role.id db} (default_role lower role) _
            (administrator-Led role refl)
            (λ v.
              >>=-Ensures {Q = λ x db. Led role.id db} (default_role lower user) (λ w. pure role)
                (other-Led role.id user)
                (λ w. record { at = λ db p b h. subst (λ r. Led r.id db) (ok-injective h) p }))))
