-- ===== src/Tables/Roles/Tests.antt =====
-- The roles of the sample: an administrator's, which a membership has, and a custom one.
use clinks.Prelude.{◌≡◌, refl, [], ◌∷◌}
use clinks.Text.{str, same, contains, precedes, ranges, rune_count, trim_space}
use clinks.Errors.{ok, err, domain, conflict, validation}
use clinks.Validation.{valid_uuid}
use clinks.Permission.{is_valid}
use clinks.Domain.{Role, custom_kind}
use clinks.Sql.{btrim, drop_spaces, drop_spaces_end, char_length_between}
use clinks.Tables.{Tables}
use clinks.Tables.Sample.{sample, home_id, role_with, ada}
use clinks.Tables.Members.Administrators.{Administered}
use clinks.Tables.Roles.{
  update_role, delete_role, permissions_for_role, find_role, find_role_tx, insert_role_permissions,
  insert_ordered,
}
use clinks.Tables.Roles.Kept.{update, after, write-Administered}
use clinks.Tables.Roles.Deleted.{Deletable, delete_role-Deletable}

abbrev no_invitations : Tables
no_invitations = record sample { invitations = [] }

abbrev edit : Role
edit = record (role_with (str "staff") custom_kind) {
  name = str " Staff ";
  permissions = str "user.read" ∷ str "tenant.read" ∷ str "user.read" ∷ [];
}

-- The permissions come back sorted and once each.
edit_saved :
    (permissions_for_role home_id
      (str "staff")
      (update_role (λ s. s) edit ada.id (ok (str "e1")) sample).1).0
    ≡ ok (str "tenant.read" ∷ str "user.read" ∷ [])
unfolding update_role permissions_for_role find_role find_role_tx insert_role_permissions
    insert_ordered same contains precedes valid_uuid ranges is_valid trim_space rune_count btrim
    drop_spaces drop_spaces_end char_length_between
edit_saved = refl

unknown_permission :
    update_role (λ s. s) (record edit { permissions = str "x" ∷ [] }) ada.id (ok (str "e1")) sample
    ≡ (err (domain validation), sample)
unfolding update_role find_role_tx insert_role_permissions insert_ordered same contains precedes
    valid_uuid ranges is_valid trim_space rune_count btrim drop_spaces drop_spaces_end
    char_length_between
unknown_permission = refl

protected_role :
    delete_role home_id (str "admin") 1 ada.id (ok (str "e1")) no_invitations
    ≡ (err (domain conflict), no_invitations)
unfolding delete_role same valid_uuid ranges
protected_role = refl

-- An invitation still refers to the role.
referred_role :
    delete_role home_id (str "staff") 1 ada.id (ok (str "e1")) sample
    ≡ (err (domain conflict), sample)
unfolding delete_role same valid_uuid ranges
referred_role = refl

deleted : (delete_role home_id (str "staff") 1 ada.id (ok (str "e1")) no_invitations).0 ≡ ok tt
unfolding delete_role same valid_uuid ranges
deleted = refl

sample-Administered : Administered home_id sample
unfolding same
sample-Administered = record {
  roles = (refl, (refl, tt));
  memberships = (refl, tt);
  some_one = refl;
}

write-Administered_example :
    Administered home_id (after (λ s. s) (update edit ada.id (ok (str "e1"))) sample)
write-Administered_example =
    write-Administered home_id (λ s. s) (update edit ada.id (ok (str "e1"))) sample
      sample-Administered

delete_role-Deletable_example :
    Deletable home_id
      (str "staff")
      1
      no_invitations
      (delete_role home_id (str "staff") 1 ada.id (ok (str "e1")) no_invitations).1
unfolding same
delete_role-Deletable_example =
    delete_role-Deletable home_id (str "staff") 1 ada.id (ok (str "e1")) no_invitations
      (refl, (refl, tt)) deleted
