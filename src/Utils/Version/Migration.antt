-- ===== src/Utils/Version/Migration.antt =====
-- The status of a migration in utils/version/migration.go. A path is named by its service.
use casa_os_common.Common.{
  ◌≡◌, arith, Bool, true, false, not, ◌&&◌, ◌||◌, Option, none, some, [], ◌∷◌, leb, ◌==◌,
  if◌then◌else◌, Bytes, eq_bytes,
}
use casa_os_common.Common.Map
use casa_os_common.Common.Map.{Map}
use casa_os_common.Utils.Version.{trim_space, drop_spaces, drop_end_spaces}

-- The directory of the status files; `is_there` tells whether it exists.
pub record Disk : Type 0 where
  pub is_there : Bool
  pub files : Map Bytes

-- `GlobalMigrationStatus`
pub record Status : Type 0 where
  pub service_name : Bytes
  pub last_migrated_version : Bytes

pub data MigrationError : Type 0 where
  invalid_service_name mkdir_failed write_failed read_failed : MigrationError

-- `strings.Contains(s, " ")`
abbrev pub has_blank : Bytes → Bool
has_blank [] = false
has_blank (c ∷ s) = c == 32 || has_blank s

-- Whether an ASCII string differs from its `strings.ToLower`.
abbrev pub has_upper : Bytes → Bool
has_upper [] = false
has_upper (c ∷ s) = leb b'A' c && leb c b'Z' || has_upper s

-- `validateServiceName`: whether it is an error
abbrev pub is_invalid_name : Bytes → Bool
is_invalid_name s = has_blank s || has_upper s

-- The version with the letter v in front.
unfoldable pub with_v : Bytes → Bytes
with_v [] = b'v' ∷ []
with_v (c ∷ s) = if c == b'v' then c ∷ s else b'v' ∷ c ∷ s

-- `Done`; `makes` and `writes` tell whether MkdirAll and WriteFile succeed, and `torn` is what a failed
-- write leaves.
unfoldable pub done :
    Bool → Bool → Option Bytes → Status → Bytes → Disk → Option MigrationError × Status × Disk
unfolding with_v
done makes writes torn m version d =
    let m' = record m { last_migrated_version = with_v version } in
    let bad : Map Bytes = elim torn [
      | none ↦ d.files
      | some b ↦ Map.put m.service_name b d.files
    ] in
    if not d.is_there && not makes
    then (some mkdir_failed, m', d)
    else if not writes
    then (some write_failed, m', record { is_there = true; files = bad })
    else (
      none,
      m',
      record { is_there = true; files = Map.put m.service_name (with_v version) d.files },
    )

-- `GetGlobalMigrationStatus`; `reads` tells whether ReadFile succeeds
unfoldable pub get_global_migration_status :
    Bool → Bytes → Disk → Option MigrationError × Option Status
unfolding drop_spaces drop_end_spaces
get_global_migration_status reads name d =
    let m : Status = record { service_name = name; last_migrated_version = [] } in
    if is_invalid_name name
    then (some invalid_service_name, none)
    else elim (Map.get name d.files) [
      | none ↦ (none, some m)
      | some b ↦
          (if reads
            then (none, some (record m { last_migrated_version = trim_space b }))
            else (some read_failed, none))
    ]

-- Where no call of the file system fails, after Done of a service with a name of no blank and no upper
-- case letter, GetGlobalMigrationStatus gives the version with the letter v in front, without white space
-- around it; and for any other such service what it gave before.
get_global_migration_status-done :
    (torn : Option Bytes) (m : Status) (version name : Bytes) (d : Disk)
    → is_invalid_name name ≡ false
    → get_global_migration_status true name (done true true torn m version d).2 ≡ (
        if eq_bytes m.service_name name
        then (
          none,
          some
              (record { service_name = name; last_migrated_version = trim_space (with_v version) }),
        )
        else get_global_migration_status true name d)
unfolding get_global_migration_status done
get_global_migration_status-done torn m version name d v =
    ground (arith, v, Map.get-put m.service_name name (with_v version) d.files)
