-- ===== src/Stats/Live.antt =====
-- The last 15 minutes of an item at 5 seconds: pkg/stats/live.go. An array is a function of its index,
-- of which only the indices below 180 are used. A time is in Unix seconds, and a sample lists its keys
-- in the order in which the loop over the map takes them.
pub mod Slots
pub mod Size
use casa_os_common.Common.{
  ℕ, zero, suc, ◌+◌, ◌-◌, ◌*◌, ◌/◌, ◌%◌, Bool, Option, none, some, List, [], ◌∷◌, length, leb, ◌==◌,
  if◌then◌else◌, Bytes,
}
use casa_os_common.Common.Int.{ℤ, pos, negsuc, ◌+ℤ◌, ◌-ℤ◌, ◌*ℤ◌, pos_part, eq_ℤ, quot, rem}
use casa_os_common.Common.Map
use casa_os_common.Common.Map.{Map}
use casa_os_common.Stats.Limits.{live_slots, max_series}
use casa_os_common.Stats.Floats.{Floats}

abbrev pub live_step : ℕ
live_step = 5

-- `liveRing`: the slot that each index holds, 0 for none, and a column for each series.
pub record LiveRing (F : Type 0) : Type 0 where
  pub stamp : ℕ → ℤ
  pub series : Map (ℕ → F)

-- `a[i] = v`
abbrev pub set_at {ℓ} : {A : Type ℓ} → ℕ → A → (ℕ → A) → ℕ → A
set_at i v a j = if i == j then v else a j

-- The index of a slot, a negative one included.
unfoldable pub live_index : ℤ → ℕ
live_index s = pos_part (rem (rem s live_slots +ℤ pos live_slots) live_slots)

module _ {F : Type 0} (fl : Floats F) where
  abbrev pub new_live_ring : LiveRing F
  new_live_ring = record { stamp = λ i. pos 0; series = [] }

  abbrev pub nan_column : ℕ → F
  nan_column i = fl.nan

  -- The first loop of `put`.
  unfoldable pub clear_index : ℕ → Map (ℕ → F) → Map (ℕ → F)
  clear_index i [] = []
  clear_index i ((k, col) ∷ m) = (k, set_at i fl.nan col) ∷ clear_index i m

  -- One turn of the second loop.
  unfoldable pub put_value : ℕ → Bytes → F → Map (ℕ → F) → Map (ℕ → F)
  put_value i k v m = elim (Map.get k m) [
    | some col ↦ Map.put k (set_at i v col) m
    | none ↦ if leb max_series (length m) then m else Map.put k (set_at i v nan_column) m
  ]

  unfoldable pub put_sample : ℕ → Map F → Map (ℕ → F) → Map (ℕ → F)
  unfolding put_value
  put_sample i [] m = m
  put_sample i ((k, v) ∷ smp) m = put_sample i smp (put_value i k v m)

  -- `put`
  unfoldable pub put_live : ℤ → Map F → LiveRing F → LiveRing F
  unfolding clear_index put_sample
  put_live (negsuc t) smp l = l
  put_live (pos t) smp l =
      let slot = t / live_step in
      let i = slot % live_slots in
      record {
        stamp = set_at i (pos slot) l.stamp;
        series = put_sample i smp (clear_index i l.series);
      }

  -- The value of a column in a slot, a gap where the index holds another slot.
  unfoldable pub slot_value : (ℕ → ℤ) → (ℕ → F) → ℤ → F
  unfolding live_index
  slot_value stamp col s = if eq_ℤ (stamp (live_index s)) s then col (live_index s) else fl.nan

  unfoldable pub slot_values : (ℕ → ℤ) → (ℕ → F) → ℤ → ℕ → List F
  unfolding slot_value
  slot_values stamp col s zero = []
  slot_values stamp col s (suc n) = slot_value stamp col s ∷ slot_values stamp col (s +ℤ pos 1) n

  unfoldable pub snapshot_series : (ℕ → ℤ) → ℤ → Map (ℕ → F) → Map (List F)
  unfolding slot_values
  snapshot_series stamp first [] = []
  snapshot_series stamp first ((k, col) ∷ m) =
      (k, slot_values stamp col first live_slots) ∷ snapshot_series stamp first m

  -- `snapshot`
  unfoldable pub snapshot : ℤ → LiveRing F → ℤ × ℤ × Map (List F)
  unfolding snapshot_series
  snapshot now l =
      let last = quot now live_step in
      let first = last -ℤ pos (live_slots - 1) in
      (first *ℤ pos live_step, last *ℤ pos live_step, snapshot_series l.stamp first l.series)
