-- ===== src/Tables/Members/Tests.antt =====
-- The only administrator of a tenant.
use clinks.Prelude.{◌≡◌, refl}
use clinks.Text.{str, same, ranges}
use clinks.Errors.{ok, err, domain, conflict}
use clinks.Validation.{valid_uuid}
use clinks.Tables.Members.{
  update_membership, lock_membership_tenant, lock_membership, membership_role_kind,
  protect_final_administrator,
}
use clinks.Tables.Members.Administrators.{Administered}
use clinks.Tables.Members.Kept.{update_membership-Administered}
use clinks.Tables.Sample.{sample, demotion, ada, home_id}

-- It cannot be demoted.
demotion_refused :
    update_membership demotion ada.id (ok (str "e1")) sample ≡ (err (domain conflict), sample)
unfolding update_membership valid_uuid ranges same lock_membership_tenant lock_membership
    membership_role_kind protect_final_administrator
demotion_refused = refl

sample-Administered : Administered home_id sample
unfolding same
sample-Administered = record {
  roles = (refl, (refl, tt));
  memberships = (refl, tt);
  some_one = refl;
}

update_membership-Administered_example :
    Administered home_id (update_membership demotion ada.id (ok (str "e1")) sample).1
update_membership-Administered_example =
    update_membership-Administered home_id demotion ada.id (ok (str "e1")) sample
      sample-Administered
