-- ===== src/Stats/Query/Tests.antt =====
-- Runs of `Query` (pkg/stats/query.go), and instances of its theorems.
use casa_os_common.Common.{
  arith, ℕ, ◌*◌, ◌≡◌, refl, Bool, true, false, none, some, List, [], ◌∷◌, length, replicate, codes,
  eq_bytes, lt_bytes,
}
use casa_os_common.Common.Int.{ℤ, pos, negsuc, ◌+ℤ◌, ◌-ℤ◌}
use casa_os_common.Common.Map
use casa_os_common.Common.Map.{Map}
use casa_os_common.Stats.Errors.{Result, ok}
use casa_os_common.Stats.Floats.Toy.{Toy, toy}
use casa_os_common.Stats.Ring.Window.{Cell}
use casa_os_common.Stats.Live.{new_live_ring}
use casa_os_common.Stats.Units.{cut, unit_of, minutes_15, parse_range}
use casa_os_common.Stats.Store.Clock.{Time, second, unix}
use casa_os_common.Stats.Store.Sample.{insert_key, sort_keys}
use casa_os_common.Stats.Store.Entry.{Entry}
use casa_os_common.Stats.Store.State.{Store, find}
use casa_os_common.Stats.Query.{
  floor_to, Answer, Point, buckets, buckets_from, fold_cells, series_of, answer_of_ring, answer_for,
  query,
}
use casa_os_common.Stats.Query.Buckets.{AllSummaries, buckets-AllSummaries}
use casa_os_common.Stats.Query.Grid.{IsGrid, query-IsGrid}

floor_run : floor_to (negsuc 61) 60 ≡ negsuc 119
unfolding floor_to ◌+ℤ◌ ◌-ℤ◌
floor_run = refl

-- A minute, a gap and a minute, in buckets of two.
abbrev cells : List (Cell toy)
cells =
    some (record { avg = some 4; low = some 1; high = some 9 })
    ∷ none
    ∷ some (record { avg = some 8; low = some 8; high = some 8 })
    ∷ none
    ∷ []

buckets-AllSummaries_example :
    (ps : List (Point Toy)) × (buckets toy cells (pos 600) 120 2 ≡ some ps)
    × (length ps ≡ 2)
    × AllSummaries toy cells (pos 600) 120 0 ps
buckets-AllSummaries_example =
    buckets-AllSummaries toy cells (pos 600) 120 2 ((refl, refl), ((refl, refl), tt)) (omega arith)

abbrev quarter : List (Cell toy)
quarter = some (record { avg = some 4; low = some 1; high = some 9 }) ∷ replicate 14 none

abbrev read : ℕ → ℤ → ℤ → Result (Map (List (Cell toy)))
read i from to = ok ((codes "cpu/total", quarter) ∷ (codes "alert/cpu_high", quarter) ∷ [])

abbrev item : Entry Toy Bool
item = record {
  ring = true;
  live = new_live_ring toy;
  closed = false;
  is_gone = false;
  last = none;
  acc_min = pos 0;
  acc = none;
}

abbrev store : Store Toy Bool
store = record { heap = item ∷ []; items = (codes "nas", 0) ∷ []; refused = []; closed = false }

abbrev now : Time
now = pos (1000 * second)

abbrev got : Answer Toy
got = record {
  step_seconds = 60;
  from = pos 60;
  to = pos 900;
  series =
      record {
        chart = codes "cpu";
        name = codes "total";
        unit = codes "percent";
        points = buckets_from toy quarter (pos 60) 60 15 0;
      }
      ∷ [];
}

query_run : query toy read false now (codes "nas") (codes "15m") store ≡ some (ok got)
unfolding query parse_range find answer_for answer_of_ring floor_to unix ◌+ℤ◌ ◌-ℤ◌ series_of unit_of
    sort_keys insert_key cut eq_bytes lt_bytes Map.get buckets_from fold_cells
query_run = refl

range_run : parse_range (codes "15m") ≡ some minutes_15
unfolding parse_range eq_bytes
range_run = refl

query-IsGrid_example : IsGrid toy minutes_15 got
query-IsGrid_example =
    query-IsGrid toy read false now (codes "nas") (codes "15m") store minutes_15 got range_run
      query_run
