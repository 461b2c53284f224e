-- ===== src/Stats/Units.antt =====
-- The keys of series and their units (pkg/stats/units.go), and the names of the ranges (types.go).
use casa_os_common.Common.{
  ℕ, Option, none, some, [], ◌∷◌, ◌++◌, ◌==◌, if◌then◌else◌, Bytes, eq_bytes, codes,
}
use casa_os_common.Common.Map
use casa_os_common.Common.Map.{Map}

-- `strings.Cut` at one byte, the two parts without the result `found`
unfoldable pub cut : ℕ → Bytes → Bytes × Bytes
cut sep [] = ([], [])
cut sep (c ∷ s) = let rest = cut sep s in if c == sep then ([], s) else (c ∷ rest.0, rest.1)

-- `SplitKey`
abbrev pub split_key : Bytes → Bytes × Bytes
split_key key = cut b'/' key

-- `units`
abbrev pub units : Map Bytes
units =
    (codes "cpu/user", codes "percent")
    ∷ (codes "cpu/system", codes "percent")
    ∷ (codes "cpu/iowait", codes "percent")
    ∷ (codes "cpu/throttled", codes "percent")
    ∷ (codes "cpu/total", codes "percent")
    ∷ (codes "cpu/vcpus", codes "count")
    ∷ (codes "memory/rss", codes "bytes")
    ∷ (codes "memory/cache", codes "bytes")
    ∷ (codes "memory/swap", codes "bytes")
    ∷ (codes "memory/limit", codes "bytes")
    ∷ (codes "memory/assigned", codes "bytes")
    ∷ (codes "memory/used", codes "bytes")
    ∷ (codes "network/rx", codes "bytes_per_second")
    ∷ (codes "network/tx", codes "bytes_per_second")
    ∷ (codes "network/dropped", codes "packets_per_second")
    ∷ (codes "disk/read", codes "bytes_per_second")
    ∷ (codes "disk/write", codes "bytes_per_second")
    ∷ (codes "disk/iops_read", codes "ops_per_second")
    ∷ (codes "disk/iops_write", codes "ops_per_second")
    ∷ (codes "fs/free_percent", codes "percent")
    ∷ (codes "pids/count", codes "count")
    ∷ (codes "pids/fds", codes "count")
    ∷ (codes "restarts/count", codes "count")
    ∷ (codes "health/ok", codes "flag")
    ∷ (codes "alert/cpu_high", codes "percent")
    ∷ (codes "alert/mem_high", codes "percent")
    ∷ []

-- `Unit`
unfoldable pub unit_of : Bytes → Bytes → Bytes
unfolding cut
unit_of chart name = elim (Map.get (chart ++ (b'/' ∷ (cut b':' name).0)) units) [
  | none ↦ []
  | some u ↦ u
]

-- `Range`, for its five names
pub data Range : Type 0 where
  live minutes_15 hour_1 hours_24 days_7 : Range

-- `ParseRange`
unfoldable pub parse_range : Bytes → Option Range
parse_range s =
    if eq_bytes s (codes "live")
    then some live
    else if eq_bytes s (codes "15m")
    then some minutes_15
    else if eq_bytes s (codes "1h")
    then some hour_1
    else if eq_bytes s (codes "24h")
    then some hours_24
    else if eq_bytes s (codes "7d")
    then some days_7
    else none
