-- ===== src/Administration/Tests.antt =====
-- The administration of tenants over the sample.
use clinks.Prelude.{◌≡◌, refl, []}
use clinks.Text.{Str, str, same, ranges, rune_count, trim_space, valid_string}
use clinks.Errors.{ok, err, domain, conflict, validation}
use clinks.Exec.{pure}
use clinks.Validation.{valid_uuid, normalize_tenant_name, normalize_name}
use clinks.Domain.{Tenant}
use clinks.Sql.{btrim, drop_spaces, drop_spaces_end, char_length_between}
use clinks.Tables.{Tables, audit_refused}
use clinks.Tables.Sample.{sample, home, ada}
use clinks.Tables.Tenants.{create_tenant, update_system, TenantUuids}
use clinks.Administration.Names.{Failed, update_tenant-Failed}
use clinks.Administration.{TenantAdministrationStore, update_tenant}

abbrev uuids : TenantUuids
uuids = record {
  tenant = ok (str "t2");
  user = ok (str "u");
  membership = ok (str "m");
  administrator = ok (str "r1");
  user_role = ok (str "r2");
  event = ok (str "e");
}

abbrev store : TenantAdministrationStore Tables
store = record {
  create = λ name actor_id. create_tenant (λ s. s) name actor_id uuids;
  list_tenants = λ filter. pure (record { items = []; next_cursor = [] });
  update_system = λ t actor_id. update_system t actor_id (ok (str "e"));
}

tenant_renamed :
    (update_tenant store (record home { name = str " House " }) ada.id sample).0
    ≡ ok (record home { name = str "House"; revision = 2 })
unfolding update_tenant update_system normalize_tenant_name normalize_name valid_string valid_uuid
    ranges same trim_space rune_count btrim drop_spaces drop_spaces_end char_length_between
tenant_renamed = refl

short_name :
    update_tenant store (record home { name = str " H " }) ada.id sample
    ≡ (err (domain validation), sample)
unfolding update_tenant normalize_tenant_name normalize_name valid_string same trim_space rune_count
    btrim drop_spaces drop_spaces_end char_length_between
short_name = refl

abbrev late : Tenant
late = record home { revision = 7 }

late_refused : (update_tenant store late ada.id sample).0 ≡ err (domain conflict)
unfolding update_tenant update_system normalize_tenant_name normalize_name valid_string valid_uuid
    ranges same trim_space rune_count btrim drop_spaces drop_spaces_end char_length_between
late_refused = refl

abbrev stranger : Str
stranger = str "00000000-0000-7000-8000-0000000000ff"

stranger_refused : (update_tenant store home stranger sample).0 ≡ err audit_refused
unfolding update_tenant update_system normalize_tenant_name normalize_name valid_string valid_uuid
    ranges same trim_space rune_count btrim drop_spaces drop_spaces_end char_length_between
stranger_refused = refl

update_tenant-Failed_example : Failed home stranger (ok (str "e")) sample audit_refused
update_tenant-Failed_example =
    update_tenant-Failed store (ok (str "e")) home stranger sample audit_refused (λ t actor. refl)
      stranger_refused
