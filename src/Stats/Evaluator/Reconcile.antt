-- ===== src/Stats/Evaluator/Reconcile.antt =====
-- The recount of an item from its history: `reconcile`, `Rebuild` and `SetRules` of
-- pkg/stats/evaluator.go, under the lock. `recent` is what the store's `recentMinutes` returned, and
-- `now` the time of its clock in Unix seconds.
use casa_os_common.Common.{
  ℕ, suc, Bool, not, ◌&&◌, none, some, List, [], ◌∷◌, ◌++◌, if◌then◌else◌, ltb, Bytes, codes,
}
use mathlib.Core.List.{reverse}
use casa_os_common.Common.Int.{ℤ, pos, ◌+ℤ◌, ◌-ℤ◌, ltb_ℤ, leb_ℤ, quot}
use casa_os_common.Common.Map
use casa_os_common.Common.Map.{Map}
use casa_os_common.Stats.Errors.{Result, ok, err}
use casa_os_common.Stats.Floats.{Floats}
use casa_os_common.Stats.Rules.{Rule}
use casa_os_common.Stats.Ring.Window.{Cell}
use casa_os_common.Stats.Evaluator.Item.{Event, ItemState, resolved, find_alert, remove_alert, fire}

module _ {F : Type 0} (fl : Floats F) where
  abbrev pub History : Type 0
  History = Map (List (Cell fl))

  -- The cells of a series, newest first.
  abbrev pub newest_first : Bytes → History → List (Cell fl)
  newest_first key hist = elim (Map.get (codes "alert/" ++ key) hist) [
    | none ↦ []
    | some cells ↦ reverse cells
  ]

  -- The inner loop: the run of high minutes, at most that of the rule.
  unfoldable pub count_high : Rule F → ℕ → List (Cell fl) → ℕ
  count_high r n [] = n
  count_high r n (none ∷ cells) = n
  count_high r n (some v ∷ cells) =
      let rest = count_high r (suc n) cells in
      if ltb_ℤ (pos n) r.minutes && not (fl.lt v.avg r.threshold) then rest else n

  -- `v`: the newest value, 0 if there is none.
  abbrev pub newest_value : List (Cell fl) → F
  newest_value [] = fl.of_ℕ 0
  newest_value (none ∷ cells) = fl.of_ℕ 0
  newest_value (some v ∷ cells) = v.avg

  -- One turn of the loop over the rules, on the cells that count.
  unfoldable pub recount :
      Bytes
      → ℤ
      → List (Cell fl)
      → Rule F
      → ItemState F × Map ℕ
      → ItemState F × Map ℕ × List (Event F)
  unfolding count_high find_alert remove_alert fire
  recount item newest cells r (st, runs) =
      let v = newest_value cells in
      let n = if r.enabled then count_high r 0 cells else 0 in
      let runs' = if ltb 0 n then Map.put r.key n runs else runs in
      let (st', e) = fire fl item st r.key (newest -ℤ pos n +ℤ pos 1) v in
      elim (find_alert r.key st.active) [
        | some a ↦
            (if ltb_ℤ (pos n) r.minutes
              then (
                record st { active = remove_alert r.key st.active },
                runs',
                record { item = item; key = r.key; state = resolved; value = v; since = a.since }
                    ∷ [],
              )
              else (st, runs', []))
        | none ↦ if leb_ℤ r.minutes (pos n) then (st', runs', e ∷ []) else (st, runs', [])
      ]

  unfoldable pub recount_all :
      Bytes
      → ℤ
      → Bool
      → History
      → List (Rule F)
      → ItemState F × Map ℕ
      → ItemState F × Map ℕ × List (Event F)
  unfolding recount
  recount_all item newest is_fresh hist [] (st, runs) = (st, runs, [])
  recount_all item newest is_fresh hist (r ∷ rs) (st, runs) =
      let cells = if is_fresh then newest_first r.key hist else [] in
      let (st', runs', evs) = recount item newest cells r (st, runs) in
      let (st'', runs'', evs') = recount_all item newest is_fresh hist rs (st', runs') in
      (st'', runs'', evs ++ evs')

  -- The newest minute is at most 2 minutes older than the last complete one.
  abbrev pub is_recent : ℤ → ℤ → Bool
  is_recent now newest = ltb_ℤ (pos 0) newest && leb_ℤ (quot now 60 -ℤ pos 3) newest

  -- The state of the item after `reconcile`, before `put`.
  unfoldable pub reconcile_item :
      Bytes → ℤ → Result (ℤ × History) → List (Rule F) → ItemState F → ItemState F × List (Event F)
  unfolding recount_all
  reconcile_item item now (err x) rules st = (st, [])
  reconcile_item item now (ok (newest, hist)) rules st =
      let (st', runs, evs) = recount_all item newest (is_recent now newest) hist rules (st, []) in
      (record st' { runs = runs; last = newest }, evs)
