-- ===== src/Stats/Store/Reads.antt =====
-- The calls of the store that only read: `Items`, `Unreadable`, `minuteValue` and `recentMinutes` of
-- pkg/stats/store.go.
use casa_os_common.Common.{
  ℕ, ◌+◌, ◌-◌, Bool, Option, none, some, List, [], ◌∷◌, ltb, if◌then◌else◌, Bytes,
}
use casa_os_common.Common.Int.{ℤ, pos}
use casa_os_common.Common.Map
use casa_os_common.Common.Map.{Map}
use casa_os_common.Stats.Errors.{Result, ok, err}
use casa_os_common.Stats.Floats.{Floats}
use casa_os_common.Stats.Rules.{contains}
use casa_os_common.Stats.Ring.Window.{Cell}
use casa_os_common.Stats.Store.Rings.{Rings}
use casa_os_common.Stats.Store.Sample.{sort_keys}
use casa_os_common.Stats.Store.State.{Store, find}

-- The keys of a list of pairs.
abbrev pub item_names : Map ℕ → List Bytes
item_names [] = []
item_names ((k, i) ∷ m) = k ∷ item_names m

module _ {F R : Type 0} where
  -- `Items`
  unfoldable pub item_list : Store F R → List Bytes
  unfolding sort_keys
  item_list s = item_names (sort_keys s.items)

  -- `Unreadable`; `base` gives the name of the file of an item
  unfoldable pub is_unreadable : (Bytes → Bytes) → Bytes → Store F R → Bool
  is_unreadable base item s = contains s.refused (base item)

-- A single cell that is there.
abbrev pub average_of : {F : Type 0} (fl : Floats F) → Option (List (Cell fl)) → Option F
average_of fl (some (some c ∷ [])) = some c.avg
average_of fl _ = none

module _ {F R : Type 0} (fl : Floats F) where
  -- `minuteValue`: the average, if the minute holds the series. `read` is `readWindow` of the ring with
  -- this index, for one series.
  unfoldable pub minute_value :
      (ℕ → ℤ → ℤ → Bytes → Result (Map (List (Cell fl))))
      → Bytes
      → Bytes
      → ℤ
      → Store F R
      → Result (Option F)
  unfolding find
  minute_value read item key minute s = elim (find item s) [
    | none ↦ ok none
    | some (i, e) ↦ elim (read i minute minute key) [
      | err x ↦ err x
      | ok cells ↦ ok (average_of fl (Map.get key cells))
    ]
  ]

  -- `recentMinutes`: the newest minute, 0 for none, and the cells of the `n` minutes up to it. `read` is
  -- `readWindow` for all series.
  unfoldable pub recent_minutes :
      Rings F R
      → (ℕ → ℤ → ℤ → Result (Map (List (Cell fl))))
      → Bytes
      → ℕ
      → Store F R
      → Result (ℕ × Map (List (Cell fl)))
  unfolding find
  recent_minutes rs read item n s = elim (find item s) [
    | none ↦ ok (0, [])
    | some (i, e) ↦ elim (rs.newest_minute e.ring) [
      | err x ↦ err x
      | ok newest ↦
          (if ltb newest n then ok (0, []) else elim (read i (pos (newest - n + 1)) (pos newest)) [
            | err x ↦ err x
            | ok cells ↦ ok (newest, cells)
          ])
    ]
  ]
