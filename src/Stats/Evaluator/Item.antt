-- ===== src/Stats/Evaluator/Item.antt =====
-- The state of one item (`itemState`), and what a committed minute does to it: `onMinute`, `fire` and
-- `idle` of pkg/stats/evaluator.go.
use casa_os_common.Common.{
  ℕ, ◌+◌, Bool, true, false, not, ◌&&◌, Option, none, some, List, [], ◌∷◌, ◌++◌, if◌then◌else◌, min,
  Bytes, eq_bytes, lt_bytes,
}
use casa_os_common.Common.Int.{ℤ, pos, ◌+ℤ◌, ◌-ℤ◌, ◌*ℤ◌, leb_ℤ, eq_ℤ}
use casa_os_common.Common.Map
use casa_os_common.Common.Map.{Map}
use casa_os_common.Stats.Floats.{Floats}
use casa_os_common.Stats.Rules.{Rule}

pub data AlertState : Type 0 where
  firing resolved : AlertState

-- `Event`; `since` is in Unix seconds.
pub record Event (F : Type 0) : Type 0 where
  pub item : Bytes
  pub key : Bytes
  pub state : AlertState
  pub value : F
  pub since : ℤ

-- `activeAlert`
pub record Alert (F : Type 0) : Type 0 where
  pub key : Bytes
  pub since : ℤ
  pub value : F

-- `itemState`; a nil map and an empty one are the same.
pub record ItemState (F : Type 0) : Type 0 where
  pub rules : List (Rule F)
  pub active : List (Alert F)
  pub runs : Map ℕ
  pub last : ℤ

abbrev pub fresh : {F : Type 0} → ItemState F
fresh = record { rules = []; active = []; runs = []; last = pos 0 }

abbrev pub is_none {ℓ} : {A : Type ℓ} → Option A → Bool
is_none none = true
is_none (some a) = false

abbrev pub is_empty {ℓ} : {A : Type ℓ} → List A → Bool
is_empty [] = true
is_empty (x ∷ xs) = false

abbrev pub max_run : ℕ
max_run = 120

-- The run of a key: 0 where the map has none.
abbrev pub run_of : Bytes → Map ℕ → ℕ
run_of k runs = elim (Map.get k runs) [ none ↦ 0 | some n ↦ n ]

module _ {F : Type 0} where
  -- The active alert of a key, as `slices.IndexFunc` finds it.
  unfoldable pub find_alert : Bytes → List (Alert F) → Option (Alert F)
  find_alert k [] = none
  find_alert k (a ∷ l) = if eq_bytes a.key k then some a else find_alert k l

  -- `slices.Delete` of that alert
  unfoldable pub remove_alert : Bytes → List (Alert F) → List (Alert F)
  remove_alert k [] = []
  remove_alert k (a ∷ l) = if eq_bytes a.key k then l else a ∷ remove_alert k l

  unfoldable pub insert_alert : Alert F → List (Alert F) → List (Alert F)
  insert_alert a [] = a ∷ []
  insert_alert a (b ∷ bs) = if lt_bytes a.key b.key then a ∷ b ∷ bs else b ∷ insert_alert a bs

  -- `slices.SortFunc` by key
  unfoldable pub sort_alerts : List (Alert F) → List (Alert F)
  unfolding insert_alert
  sort_alerts [] = []
  sort_alerts (a ∷ l) = insert_alert a (sort_alerts l)

  unfoldable pub is_idle : ItemState F → Bool
  is_idle st = is_empty st.rules && is_empty st.active && is_empty st.runs

module _ {F : Type 0} (fl : Floats F) where
  -- `fire`: the alert of `key`, active since minute `since_min`.
  unfoldable pub fire : Bytes → ItemState F → Bytes → ℤ → F → ItemState F × Event F
  unfolding sort_alerts
  fire item st key since_min v =
      let since = since_min *ℤ pos 60 in
      let a : Alert F = record { key = key; since = since; value = v } in
      (
        record st { active = sort_alerts (st.active ++ a ∷ []) },
        record { item = item; key = key; state = firing; value = v; since = since },
      )

  -- The value of a rule's key, if the rule is enabled and the minute holds one that reaches the
  -- threshold.
  abbrev pub high_value : (Bytes → Option F) → Rule F → Option F
  high_value vals r = elim (vals r.key) [
    | none ↦ none
    | some v ↦ if r.enabled && not (fl.lt v r.threshold) then some v else none
  ]

  -- The value of the event when the alert ends.
  abbrev pub low_value : (Bytes → Option F) → Rule F → F
  low_value vals r = elim (vals r.key) [
    | none ↦ fl.of_ℕ 0
    | some v ↦ if r.enabled then v else fl.of_ℕ 0
  ]

  -- A rule whose minute is not high: its run ends, and so does its alert.
  unfoldable pub judge_low : Bytes → F → Bytes → ItemState F → ItemState F × List (Event F)
  unfolding find_alert remove_alert
  judge_low item v key st =
      let st' = record st { runs = Map.del key st.runs } in
      elim (find_alert key st.active) [
        | none ↦ (st', [])
        | some a ↦ (
          record st' { active = remove_alert key st.active },
          record { item = item; key = key; state = resolved; value = v; since = a.since } ∷ [],
        )
      ]

  -- A rule whose minute is high: its run grows, and fires the alert when it is long enough.
  unfoldable pub judge_high : Bytes → ℤ → F → Rule F → ItemState F → ItemState F × List (Event F)
  unfolding find_alert fire
  judge_high item m v r st =
      let n = min (run_of r.key st.runs + 1) max_run in
      let st' = record st { runs = Map.put r.key n st.runs } in
      let (st'', e) = fire item st' r.key (m -ℤ pos n +ℤ pos 1) v in
      if leb_ℤ r.minutes (pos n) && is_none (find_alert r.key st.active)
      then (st'', e ∷ [])
      else (st', [])

  -- One turn of the loop over the rules.
  unfoldable pub judge :
      Bytes → ℤ → (Bytes → Option F) → Rule F → ItemState F → ItemState F × List (Event F)
  unfolding judge_low judge_high
  judge item m vals r st = elim (high_value vals r) [
    | none ↦ judge_low item (low_value vals r) r.key st
    | some v ↦ judge_high item m v r st
  ]

  unfoldable pub judge_all :
      Bytes → ℤ → (Bytes → Option F) → List (Rule F) → ItemState F → ItemState F × List (Event F)
  unfolding judge
  judge_all item m vals [] st = (st, [])
  judge_all item m vals (r ∷ rs) st =
      let (st', evs) = judge item m vals r st in
      let (st'', evs') = judge_all item m vals rs st' in (st'', evs ++ evs')

  -- `onMinute` on the state of the item: the new state, to be stored by `put`, and the events;
  -- `none` where the minute is the last one judged. `rules` are those in force.
  unfoldable pub on_minute_item :
      Bytes
      → ℤ
      → (Bytes → Option F)
      → List (Rule F)
      → ItemState F
      → Option (ItemState F × List (Event F))
  unfolding judge_all
  on_minute_item item m vals rules st =
      let kept = if eq_ℤ m (st.last +ℤ pos 1) then st.runs else [] in
      let (st', evs) = judge_all item m vals rules (record st { runs = kept }) in
      if eq_ℤ m st.last then none else some (record st' { last = m }, evs)
