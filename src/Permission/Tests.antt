-- ===== src/Permission/Tests.antt =====
-- The default permissions of a user.
use mathlib.Core.List.{Mem, Nodup}
use clinks.Prelude.{◌≡◌, refl, ◌↔◌, true}
use clinks.Text.{Str, same, contains}
use clinks.Permission.{is_valid, default_user_permissions, valid_permissions}
use clinks.Permission.Valid.{valid_permissions_iff}

valid_permissions_iff_example : (valid_permissions default_user_permissions ≡ true) ↔ (
    ((p : Str) → Mem p default_user_permissions → is_valid p ≡ true)
    × Nodup default_user_permissions)
valid_permissions_iff_example = valid_permissions_iff default_user_permissions

defaults_valid : valid_permissions default_user_permissions ≡ true
unfolding valid_permissions is_valid default_user_permissions same contains
defaults_valid = refl
