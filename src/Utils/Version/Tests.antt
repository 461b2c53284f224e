-- ===== src/Utils/Version/Tests.antt =====
-- Runs of utils/version, and instances of its theorems.
use casa_os_common.Common.{◌≡◌, refl, true, false, none, some, [], Bytes, codes}
use casa_os_common.Common.Int.{pos}
use casa_os_common.Utils.Version.{
  Version, trim_v, split_dash, split, digits, magnitude, atoi, numbers, drop_spaces,
  drop_end_spaces, parse_version,
}
use casa_os_common.Utils.Version.Legacy.{
  detect_version, detect_minor_version, is_config_key_db_path_exist, detect_legacy_version,
}
use casa_os_common.Utils.Version.Migration.{Disk, Status}
use casa_os_common.Utils.Version.Order.{IsOrdered, compare-IsOrdered}

abbrev alpha : Version
alpha = record {
  major = pos 0;
  minor = pos 3;
  patch = pos 0;
  build = pos 0;
  annotation = codes "alpha1";
}

abbrev four : Version
four = record { major = pos 1; minor = pos 2; patch = pos 3; build = pos 4; annotation = [] }

alpha_run : parse_version (codes " v0.3.0-alpha1") ≡ some alpha
unfolding parse_version trim_v split_dash split numbers atoi magnitude digits drop_spaces
    drop_end_spaces
alpha_run = refl

four_run : parse_version (codes "1.2.3.4") ≡ some four
unfolding parse_version trim_v split_dash split numbers atoi magnitude digits drop_spaces
    drop_end_spaces
four_run = refl

compare-IsOrdered_example :
    IsOrdered (codes " v0.3.0-alpha1") (codes "1.2.3.4") (codes " v0.3.0-alpha1") alpha four
compare-IsOrdered_example =
    compare-IsOrdered (codes " v0.3.0-alpha1") (codes "1.2.3.4") (codes " v0.3.0-alpha1") alpha four
      alpha alpha_run four_run alpha_run

abbrev binary : Bytes
binary = codes "/usr/bin/casaos"

abbrev status : Status
status = record { service_name = codes "gateway"; last_migrated_version = [] }

abbrev disk : Disk
disk = record { is_there = false; files = [] }

legacy_run :
    detect_legacy_version none (some (record { has_usb_auto_mount = true; has_db_path = false }))
    ≡ some (pos 0, pos 3, pos 0)
unfolding detect_legacy_version detect_version detect_minor_version is_config_key_db_path_exist
legacy_run = refl
