-- ===== src/Validation/Tests.antt =====
-- One UUID.
use clinks.Prelude.{◌≡◌, ◌↔◌, true}
use clinks.Text.{Str, str}
use clinks.Validation.{valid_uuid}
use clinks.Validation.Uuid.{IsUuid, valid_uuid_iff}

abbrev sample : Str
sample = str "00000000-0000-0000-0000-00000000000a"

valid_uuid_iff_example : (valid_uuid sample ≡ true) ↔ IsUuid sample
valid_uuid_iff_example = valid_uuid_iff sample
