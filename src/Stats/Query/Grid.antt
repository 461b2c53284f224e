-- ===== src/Stats/Query/Grid.antt =====
-- The points of an answer of `Query` (pkg/stats/query.go).
use casa_os_common.Common.{
  ℕ, zero, suc, ◌-◌, ◌*◌, ◌/◌, ◌≡◌, ◌<◌, refl, arith, Bool, true, false, some, List, [], ◌∷◌,
  length, Bytes, eq_bytes, codes, leb, inl, inr, sym, Option, none, Bool-cases, Option-cases, ◌∙◌,
  ap,
}
use mathlib.Core.Path.{subst}
use casa_os_common.Common.Int.{ℤ, pos, negsuc, ◌+ℤ◌, ◌-ℤ◌, ◌*ℤ◌, quot}
use casa_os_common.Common.Map.{Map}
use casa_os_common.Stats.Errors.{Result, ok, err, Result-cases}
use casa_os_common.Stats.Limits.{live_slots}
use casa_os_common.Stats.Floats.{Floats}
use casa_os_common.Stats.Ring.Window.{Cell}
use casa_os_common.Stats.Live.{LiveRing, live_step, snapshot, snapshot_series, slot_values}
use casa_os_common.Stats.Units.{
  split_key, Range, live, minutes_15, hour_1, hours_24, days_7, parse_range,
}
use casa_os_common.Stats.Store.Clock.{Time, unix}
use casa_os_common.Stats.Store.Sample.{insert_key, sort_keys}
use casa_os_common.Stats.Store.State.{Store, find}
use casa_os_common.Stats.Query.{
  Point, SeriesData, Answer, step_of, count_of, buckets_from, live_points, points_of_live,
  points_of_cells, has_value, series_of, answer_of_ring, answer_of_live, answer_for, query,
  floor_to,
}
use casa_os_common.Stats.Query.Floor.{floor_to-IsFloor}

-- Times from point `i` on.
abbrev pub AllAt : {F : Type 0} → ℤ → ℕ → ℕ → List (Point F) → Type 0
AllAt from step i [] = Unit
AllAt from step i (p ∷ ps) = (p.t ≡ from +ℤ pos (i * step)) × AllAt from step (suc i) ps

-- `n` points, one step apart.
abbrev pub IsRow : {F : Type 0} → ℤ → ℕ → ℕ → List (Point F) → Type 0
IsRow from step n ps = (length ps ≡ n) × AllAt from step 0 ps

abbrev pub AllRows : {F : Type 0} → ℤ → ℕ → ℕ → Map (List (Point F)) → Type 0
AllRows from step n [] = Unit
AllRows from step n ((k, ps) ∷ m) = IsRow from step n ps × AllRows from step n m

-- Series with points of a row, one of which has a value, and not of the chart of alerts.
abbrev pub AllShown : {F : Type 0} → (Floats F) → ℤ → ℕ → ℕ → List (SeriesData F) → Type 0
AllShown fl from step n [] = Unit
AllShown fl from step n (s ∷ ss) =
    (IsRow from step n s.points
      × (has_value fl s.points ≡ true)
      × (eq_bytes s.chart (codes "alert") ≡ false))
    × AllShown fl from step n ss

-- An answer for a range: its times are multiples of the step, and its series are on them.
abbrev pub IsGrid : {F : Type 0} → (Floats F) → Range → Answer F → Type 0
IsGrid fl r a =
    (a.step_seconds ≡ step_of r)
    × (a.to ≡ a.from +ℤ pos ((count_of r - 1) * step_of r))
    × ((q : ℤ) × (a.to ≡ q *ℤ pos (step_of r)))
    × AllShown fl a.from (step_of r) (count_of r) a.series

sub_add : (to : ℤ) (k : ℕ) → to ≡ (to -ℤ pos k) +ℤ pos k
unfolding ◌+ℤ◌ ◌-ℤ◌
sub_add (pos n) k = ground arith
sub_add (negsuc n) k = ground arith

live_span : (last : ℤ) → last *ℤ pos 5 ≡ (last -ℤ pos 179) *ℤ pos 5 +ℤ pos 895
unfolding ◌*ℤ◌ ◌-ℤ◌ ◌+ℤ◌
live_span (pos n) = ground arith
live_span (negsuc n) = ground arith

step_of-positive : (r : Range) → 0 < step_of r
step_of-positive live = omega arith
step_of-positive minutes_15 = omega arith
step_of-positive hour_1 = omega arith
step_of-positive hours_24 = omega arith
step_of-positive days_7 = omega arith

module _ {F : Type 0} (fl : Floats F) where
  buckets_from-AllAt :
      (cells : List (Cell fl)) (from : ℤ) (step n i : ℕ)
      → (length (buckets_from fl cells from step n i) ≡ n)
        × AllAt from step i (buckets_from fl cells from step n i)
  unfolding buckets_from
  buckets_from-AllAt cells from step zero i = (refl, tt)
  buckets_from-AllAt cells from step (suc n) i =
      let (l, r) = buckets_from-AllAt cells from step n (suc i) in (ap suc l, (refl, r))

  -- The same, where no slice was out of range.
  abbrev AllRowsIf : ℤ → ℕ → ℕ → Option (Map (List (Point F))) → Type 0
  AllRowsIf from step n none = Unit
  AllRowsIf from step n (some m) = AllRows from step n m

  abbrev with_row :
      Bytes → List (Point F) → Option (Map (List (Point F))) → Option (Map (List (Point F)))
  with_row k ps none = none
  with_row k ps (some m) = some ((k, ps) ∷ m)

  AllRowsIf-with_row :
      (k : Bytes) (ps : List (Point F)) (o : Option (Map (List (Point F)))) (from : ℤ) (step n : ℕ)
      → IsRow from step n ps
      → AllRowsIf from step n o
      → AllRowsIf from step n (with_row k ps o)
  AllRowsIf-with_row k ps none from step n r a = tt
  AllRowsIf-with_row k ps (some m) from step n r a = (r, a)

  with_row-elim :
      (k : Bytes) (ps : List (Point F)) (o : Option (Map (List (Point F))))
      → elim o [ none ↦ none | some pts ↦ some ((k, ps) ∷ pts) ] ≡ with_row k ps o
  with_row-elim k ps none = refl
  with_row-elim k ps (some m) = refl

  AllRowsIf-cells :
      (m : Map (List (Cell fl))) (from : ℤ) (step n : ℕ)
      → AllRowsIf from step n (points_of_cells fl m from step n)
  AllRowsIf-cells [] from step n = tt
  AllRowsIf-cells ((k, cells) ∷ m) from step n =
      let ps = buckets_from fl cells from step n 0 in
      let o = points_of_cells fl m from step n in
      elim (Bool-cases (leb (n * (step / 60)) (length cells))) [
        | inr b ↦ simp (points_of_cells, b) tt
        | inl b ↦
            simp (points_of_cells, b)
              (subst (λ x. AllRowsIf from step n x) (sym (with_row-elim k ps o))
                (AllRowsIf-with_row k ps o from step n (buckets_from-AllAt cells from step n 0)
                  (AllRowsIf-cells m from step n)))
      ]

  live_points-AllAt :
      (vs : List F) (from : ℤ) (i : ℕ)
      → (length (live_points fl vs from i) ≡ length vs)
        × AllAt from live_step i (live_points fl vs from i)
  unfolding live_points
  live_points-AllAt [] from i = (refl, tt)
  live_points-AllAt (v ∷ vs) from i =
      let (l, r) = live_points-AllAt vs from (suc i) in (ap suc l, (refl, r))

  length-slot_values :
      (stamp : ℕ → ℤ) (col : ℕ → F) (s : ℤ) (n : ℕ) → length (slot_values fl stamp col s n) ≡ n
  unfolding slot_values
  length-slot_values stamp col s zero = refl
  length-slot_values stamp col s (suc n) = ap suc (length-slot_values stamp col (s +ℤ pos 1) n)

  AllRows-live :
      (stamp : ℕ → ℤ) (first from : ℤ) (m : Map (ℕ → F))
      → AllRows from live_step live_slots
          (points_of_live fl (snapshot_series fl stamp first m) from)
  unfolding snapshot_series
  AllRows-live stamp first from [] = tt
  AllRows-live stamp first from ((k, col) ∷ m) =
      let (l, r) = live_points-AllAt (slot_values fl stamp col first live_slots) from 0 in
      ((l ∙ length-slot_values stamp col first live_slots, r), AllRows-live stamp first from m)

  AllRows-insert_key :
      (from : ℤ) (step n : ℕ) (k : Bytes) (ps : List (Point F)) (m : Map (List (Point F)))
      → IsRow from step n ps
      → AllRows from step n m
      → AllRows from step n (insert_key k ps m)
  unfolding insert_key
  AllRows-insert_key from step n k ps [] r a = (r, tt)
  AllRows-insert_key from step n k ps ((j, qs) ∷ m) r (b, a) =
      ground (arith, r, b, AllRows-insert_key from step n k ps m r a)

  AllRows-sort_keys :
      (from : ℤ) (step n : ℕ) (m : Map (List (Point F)))
      → AllRows from step n m
      → AllRows from step n (sort_keys m)
  unfolding sort_keys
  AllRows-sort_keys from step n [] a = tt
  AllRows-sort_keys from step n ((k, ps) ∷ m) (r, a) =
      AllRows-insert_key from step n k ps (sort_keys m) r (AllRows-sort_keys from step n m a)

  series_of-AllShown :
      (from : ℤ) (step n : ℕ) (m : Map (List (Point F)))
      → AllRows from step n m
      → AllShown fl from step n (series_of fl m)
  unfolding series_of
  series_of-AllShown from step n [] a = tt
  series_of-AllShown from step n ((k, ps) ∷ m) (r, a) =
      let ih = series_of-AllShown from step n m a in
      elim (Bool-cases (eq_bytes (split_key k).0 (codes "alert"))) [
        | inl e ↦ simp (series_of, e) ih
        | inr e ↦ elim (Bool-cases (has_value fl ps)) [
          | inl h ↦ simp (series_of, e, h) ((r, refl, refl), ih)
          | inr h ↦ simp (series_of, e, h) ih
        ]
      ]

  answer_of_live-IsGrid : (l : LiveRing F) (now : Time) → IsGrid fl live (answer_of_live fl l now)
  unfolding answer_of_live snapshot
  answer_of_live-IsGrid l now =
      let last = quot (unix now) live_step in
      let first = last -ℤ pos (live_slots - 1) in
      let from = first *ℤ pos live_step in
      let m = points_of_live fl (snapshot_series fl l.stamp first l.series) from in
      (
        refl,
        live_span last,
        (last, refl),
        series_of-AllShown from live_step live_slots (sort_keys m) (
            AllRows-sort_keys from live_step live_slots m
              (AllRows-live l.stamp first from l.series)),
      )

  -- An error, or an answer for the range.
  abbrev IsErrorOrGrid : Range → Option (Result (Answer F)) → Type 0
  IsErrorOrGrid r none = Unit
  IsErrorOrGrid r (some (ok a)) = IsGrid fl r a
  IsErrorOrGrid r (some (err x)) = Unit

  answer_of_ring-IsErrorOrGrid :
      (read : ℤ → ℤ → Result (Map (List (Cell fl)))) (closed_now : Bool) (now : Time) (r : Range)
      → IsErrorOrGrid r (answer_of_ring fl read closed_now now r)
  unfolding answer_of_ring
  answer_of_ring-IsErrorOrGrid read closed_now now r =
      let step = step_of r in
      let n = count_of r in
      let to = floor_to (floor_to (unix now) 60 -ℤ pos 60) step in
      let from = to -ℤ pos ((n - 1) * step) in
      let f = floor_to-IsFloor (floor_to (unix now) 60 -ℤ pos 60) step (step_of-positive r) in
      elim (Result-cases (read (quot from 60) (quot to 60 +ℤ pos (step / 60) -ℤ pos 1))) [
        | inl (cells, e) ↦
            (let rows = AllRowsIf-cells cells from step n in
              elim (Option-cases (points_of_cells fl cells from step n)) [
                | inl p ↦ simp (answer_of_ring, e, p) tt
                | inr (m, p) ↦
                    (simp (answer_of_ring, e, p)
                      (
                        refl,
                        sub_add to ((n - 1) * step),
                        (f.2, f.3),
                        series_of-AllShown from step n (sort_keys m) (
                            AllRows-sort_keys from step n m
                              (subst (λ x. AllRowsIf from step n x) p rows)),
                      ))
              ])
        | inr (x, e) ↦ simp (answer_of_ring, e) tt
      ]

  answer_for-IsErrorOrGrid :
      (read : ℤ → ℤ → Result (Map (List (Cell fl)))) (closed_now : Bool) (now : Time)
      (l : LiveRing F) (r : Range)
      → IsErrorOrGrid r (answer_for fl read closed_now now l r)
  unfolding answer_for
  answer_for-IsErrorOrGrid read closed_now now l live = answer_of_live-IsGrid l now
  answer_for-IsErrorOrGrid read closed_now now l minutes_15 =
      answer_of_ring-IsErrorOrGrid read closed_now now minutes_15
  answer_for-IsErrorOrGrid read closed_now now l hour_1 =
      answer_of_ring-IsErrorOrGrid read closed_now now hour_1
  answer_for-IsErrorOrGrid read closed_now now l hours_24 =
      answer_of_ring-IsErrorOrGrid read closed_now now hours_24
  answer_for-IsErrorOrGrid read closed_now now l days_7 =
      answer_of_ring-IsErrorOrGrid read closed_now now days_7

  query-IsErrorOrGrid :
      {R : Type 0} (read : ℕ → ℤ → ℤ → Result (Map (List (Cell fl)))) (closed_now : Bool)
      (now : Time) (item r : Bytes) (s : Store F R) (range : Range)
      → parse_range r ≡ some range
      → IsErrorOrGrid range (query fl read closed_now now item r s)
  unfolding query
  query-IsErrorOrGrid read closed_now now item r s range h = elim (Bool-cases s.closed) [
    | inl c ↦ simp (query, h, c) tt
    | inr c ↦ elim (Option-cases (find item s)) [
      | inl f ↦ simp (query, h, c, f) tt
      | inr ((i, e), f) ↦
          simp (query, h, c, f) (answer_for-IsErrorOrGrid (read i) closed_now now e.live range)
    ]
  ]

  -- Where a range has one of its five names, an answer of Query for it has the step of the range; its last
  -- time is a multiple of the step, and its first as many steps before as the range has points but one;
  -- each series has that many points, from the first time on and one step apart, at least one of them
  -- with a value, and is not of the chart of alerts.
  pub query-IsGrid :
      {R : Type 0} (read : ℕ → ℤ → ℤ → Result (Map (List (Cell fl)))) (closed_now : Bool)
      (now : Time) (item r : Bytes) (s : Store F R) (range : Range) (a : Answer F)
      → parse_range r ≡ some range
      → query fl read closed_now now item r s ≡ some (ok a)
      → IsGrid fl range a
  query-IsGrid read closed_now now item r s range a h q =
      subst (λ x. IsErrorOrGrid range x) q
        (query-IsErrorOrGrid read closed_now now item r s range h)
