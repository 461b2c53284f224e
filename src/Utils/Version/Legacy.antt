-- ===== src/Utils/Version/Legacy.antt =====
-- The detection of old versions by utils/version/version.go.
use casa_os_common.Common.{Bool, Option, none, some, Bytes, if◌then◌else◌}
use casa_os_common.Common.Int.{ℤ, pos, eq_ℤ}
use casa_os_common.Utils.Version.{parse_version}

-- The keys of `_configFile` that are asked for: `USBAutoMount` of `server` and `DBPath` of `app`.
pub record ConfigFile : Type 0 where
  pub has_usb_auto_mount : Bool
  pub has_db_path : Bool

-- The numbers of a version.
abbrev pub Numbers : Type 0
Numbers = ℤ × ℤ × ℤ

-- `DetectVersion` on the output of `casaos -v`, `none` if that fails; a result `none` is an error
unfoldable pub detect_version : Option Bytes → Option Numbers
unfolding parse_version
detect_version none = none
detect_version (some out) = elim (parse_version out) [
  | none ↦ none
  | some v ↦ some (v.major, v.minor, v.patch)
]

-- `DetectMinorVersion`
unfoldable pub detect_minor_version : Option ConfigFile → Option ℤ
detect_minor_version none = none
detect_minor_version (some f) = some (if f.has_usb_auto_mount then pos 3 else pos 2)

-- `IsConfigKeyDBPathExist`
unfoldable pub is_config_key_db_path_exist : Option ConfigFile → Option Bool
is_config_key_db_path_exist none = none
is_config_key_db_path_exist (some f) = some f.has_db_path

-- `DetectLegacyVersion`
unfoldable pub detect_legacy_version : Option Bytes → Option ConfigFile → Option Numbers
unfolding detect_version detect_minor_version is_config_key_db_path_exist
detect_legacy_version out file = elim (detect_version out) [
  | some v ↦ none
  | none ↦ elim file [
    | none ↦ none
    | some f ↦ elim (detect_minor_version (some f)) [
      | none ↦ none
      | some minor ↦
          (if eq_ℤ minor (pos 2)
            then some (pos 0, pos 2, pos 99)
            else elim (is_config_key_db_path_exist (some f)) [
              | none ↦ none
              | some there ↦
                  (if there then some (pos 0, pos 3, pos 3) else some (pos 0, pos 3, pos 0))
            ])
    ]
  ]
]
