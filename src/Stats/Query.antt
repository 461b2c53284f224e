-- ===== src/Stats/Query.antt =====
-- `Query`, `buckets` and `floorTo` of pkg/stats/query.go.
pub mod Floor
pub mod Buckets
pub mod Grid
mod Tests
use casa_os_common.Common.{
  ℕ, zero, suc, ◌+◌, ◌-◌, ◌*◌, ◌/◌, Bool, true, false, not, ◌||◌, Option, none, some, List, [], ◌∷◌,
  length, ◌==◌, leb, if◌then◌else◌, Bytes, eq_bytes, codes, take, drop,
}
use casa_os_common.Common.Int.{ℤ, pos, ◌+ℤ◌, ◌-ℤ◌, quot, rem}
use casa_os_common.Common.Map.{Map}
use casa_os_common.Stats.Errors.{
  Err, Result, ok, err, cause, bad_range, store_closed, unknown_item, ring_closed,
}
use casa_os_common.Stats.Limits.{live_slots}
use casa_os_common.Stats.Floats.{Floats}
use casa_os_common.Stats.Ring.Write.{MinuteValue}
use casa_os_common.Stats.Ring.Window.{Cell}
use casa_os_common.Stats.Live.{LiveRing, live_step, snapshot}
use casa_os_common.Stats.Units.{
  split_key, unit_of, Range, live, minutes_15, hour_1, hours_24, days_7, parse_range,
}
use casa_os_common.Stats.Store.Clock.{Time, unix}
use casa_os_common.Stats.Store.Rings.{Rings}
use casa_os_common.Stats.Store.Sample.{sort_keys}
use casa_os_common.Stats.Store.Entry.{Entry}
use casa_os_common.Stats.Store.State.{Store, find}

-- `floorTo`
unfoldable pub floor_to : ℤ → ℕ → ℤ
floor_to x m = x -ℤ rem (rem x m +ℤ pos m) m

-- The step in seconds and the number of points of a range.
abbrev pub step_of : Range → ℕ
step_of live = live_step
step_of minutes_15 = 60
step_of hour_1 = 60
step_of hours_24 = 300
step_of days_7 = 1800

abbrev pub count_of : Range → ℕ
count_of live = live_slots
count_of minutes_15 = 15
count_of hour_1 = 60
count_of hours_24 = 288
count_of days_7 = 336

-- `Point`; the three values are there together
pub record Point (F : Type 0) : Type 0 where
  pub t : ℤ
  pub value : Option (MinuteValue F)

-- `SeriesData`
pub record SeriesData (F : Type 0) : Type 0 where
  pub chart : Bytes
  pub name : Bytes
  pub unit : Bytes
  pub points : List (Point F)

-- `Result`, for the range of the query
pub record Answer (F : Type 0) : Type 0 where
  pub step_seconds : ℕ
  pub from : ℤ
  pub to : ℤ
  pub series : List (SeriesData F)

-- The variables of the inner loop of `buckets`.
pub record Fold (F : Type 0) : Type 0 where
  pub sum : F
  pub low : F
  pub high : F
  pub count : ℕ

-- Whether a query of a closed ring is one of a closed store.
abbrev pub is_ring_closed : Err → Bool
is_ring_closed (cause ring_closed) = true
is_ring_closed _ = false

module _ {F : Type 0} (fl : Floats F) where
  abbrev pub no_cells : Fold F
  no_cells = record { sum = fl.of_ℕ 0; low = fl.of_ℕ 0; high = fl.of_ℕ 0; count = 0 }

  -- One turn of the inner loop.
  unfoldable pub add_cell : Cell fl → Fold F → Fold F
  add_cell none a = a
  add_cell (some c) a =
      let low = if a.count == 0 then c.low else a.low in
      let high = if a.count == 0 then c.high else a.high in
      record {
        sum = fl.add a.sum c.avg;
        low = fl.fmin low c.low;
        high = fl.fmax high c.high;
        count = a.count + 1;
      }

  unfoldable pub fold_cells : List (Cell fl) → Fold F → Fold F
  unfolding add_cell
  fold_cells [] a = a
  fold_cells (c ∷ cs) a = fold_cells cs (add_cell c a)

  abbrev pub point_value : Fold F → Option (MinuteValue F)
  point_value a =
      if a.count == 0
      then none
      else some (record { avg = fl.div a.sum a.count; low = a.low; high = a.high })

  -- The points of `buckets` from point `i` on, on a list that has a cell for each of their minutes.
  unfoldable pub buckets_from : List (Cell fl) → ℤ → ℕ → ℕ → ℕ → List (Point F)
  unfolding fold_cells
  buckets_from cells from step zero i = []
  buckets_from cells from step (suc n) i =
      let per = step / 60 in
      record {
        t = from +ℤ pos (i * step);
        value = point_value (fold_cells (take per (drop (i * per) cells)) no_cells);
      }
      ∷ buckets_from cells from step n (suc i)

  -- `buckets`; `none` is the panic of a slice that is out of range
  abbrev pub buckets : List (Cell fl) → ℤ → ℕ → ℕ → Option (List (Point F))
  buckets cells from step n =
      if leb (n * (step / 60)) (length cells) then some (buckets_from cells from step n 0) else none

  -- The points of a live series.
  unfoldable pub live_points : List F → ℤ → ℕ → List (Point F)
  live_points [] from i = []
  live_points (v ∷ vs) from i =
      record {
        t = from +ℤ pos (i * live_step);
        value = if fl.is_nan v then none else some (record { avg = v; low = v; high = v });
      }
      ∷ live_points vs from (suc i)

  abbrev pub points_of_live : Map (List F) → ℤ → Map (List (Point F))
  points_of_live [] from = []
  points_of_live ((k, vs) ∷ m) from = (k, live_points vs from 0) ∷ points_of_live m from

  abbrev pub points_of_cells : Map (List (Cell fl)) → ℤ → ℕ → ℕ → Option (Map (List (Point F)))
  points_of_cells [] from step n = some []
  points_of_cells ((k, cells) ∷ m) from step n = elim (buckets cells from step n) [
    | none ↦ none
    | some ps ↦ elim (points_of_cells m from step n) [
      | none ↦ none
      | some pts ↦ some ((k, ps) ∷ pts)
    ]
  ]

  -- `slices.ContainsFunc` of a point with an average
  abbrev pub has_value : List (Point F) → Bool
  has_value [] = false
  has_value (p ∷ ps) = elim p.value [ none ↦ has_value ps | some v ↦ true ]

  -- The last loop, over the sorted keys.
  unfoldable pub series_of : Map (List (Point F)) → List (SeriesData F)
  unfolding unit_of
  series_of [] = []
  series_of ((k, pts) ∷ m) =
      let rest = series_of m in
      let (chart, name) = split_key k in
      if eq_bytes chart (codes "alert") || not (has_value pts)
      then rest
      else record { chart = chart; name = name; unit = unit_of chart name; points = pts } ∷ rest

  -- The answer from the ring: `read from to` is what `readWindow` gives, and `closed_now` whether the
  -- store is closed when the ring is found closed.
  unfoldable pub answer_of_ring :
      (ℤ → ℤ → Result (Map (List (Cell fl)))) → Bool → Time → Range → Option (Result (Answer F))
  unfolding floor_to series_of sort_keys
  answer_of_ring read closed_now now r =
      let step = step_of r in
      let n = count_of r in
      let to = floor_to (floor_to (unix now) 60 -ℤ pos 60) step in
      let from = to -ℤ pos ((n - 1) * step) in
      elim (read (quot from 60) (quot to 60 +ℤ pos (step / 60) -ℤ pos 1)) [
        | err x ↦ some (
            err (
              if is_ring_closed x
              then (if closed_now then cause store_closed else cause unknown_item)
              else x))
        | ok cells ↦ elim (points_of_cells cells from step n) [
          | none ↦ none
          | some points ↦ some (
              ok (record {
                step_seconds = step;
                from = from;
                to = to;
                series = series_of (sort_keys points);
              }))
        ]
      ]

  unfoldable pub answer_of_live : LiveRing F → Time → Answer F
  unfolding snapshot series_of sort_keys
  answer_of_live l now =
      let (from, to, vals) = snapshot fl (unix now) l in
      record {
        step_seconds = live_step;
        from = from;
        to = to;
        series = series_of (sort_keys (points_of_live vals from));
      }

  -- The branches of `Query` on an item.
  unfoldable pub answer_for :
      (ℤ → ℤ → Result (Map (List (Cell fl))))
      → Bool
      → Time
      → LiveRing F
      → Range
      → Option (Result (Answer F))
  unfolding answer_of_ring answer_of_live
  answer_for read closed_now now l live = some (ok (answer_of_live l now))
  answer_for read closed_now now l r = answer_of_ring read closed_now now r

  -- `Query`, where `read` also takes the index of the entry; `none` is the panic of `buckets`
  unfoldable pub query :
      {R : Type 0}
      → (ℕ → ℤ → ℤ → Result (Map (List (Cell fl))))
      → Bool
      → Time
      → Bytes
      → Bytes
      → Store F R
      → Option (Result (Answer F))
  unfolding parse_range find answer_for
  query read closed_now now item r s = elim (parse_range r) [
    | none ↦ some (err (cause bad_range))
    | some range ↦
        (if s.closed then some (err (cause store_closed)) else elim (find item s) [
          | none ↦ some (err (cause unknown_item))
          | some (i, e) ↦ answer_for (read i) closed_now now e.live range
        ])
  ]
