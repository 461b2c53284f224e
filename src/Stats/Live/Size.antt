-- ===== src/Stats/Live/Size.antt =====
-- The number of series of a live ring (pkg/stats/live.go).
use casa_os_common.Common.{
  ℕ, suc, ◌≤◌, ◌≡◌, ◌/◌, ◌%◌, refl, arith, some, [], ◌∷◌, length, inl, inr, Option-cases, Bytes,
}
use casa_os_common.Common.Int.{ℤ, pos, negsuc}
use casa_os_common.Common.Map
use casa_os_common.Common.Map.{Map}
use casa_os_common.Stats.Limits.{live_slots, max_series}
use casa_os_common.Stats.Floats.{Floats}
use casa_os_common.Stats.Live.{
  LiveRing, live_step, set_at, nan_column, clear_index, put_value, put_sample, put_live,
}

module _ {ℓ} {V : Type ℓ} where
  length-put_known :
      (k : Bytes) (v c : V) (m : Map V) → Map.get k m ≡ some c → length (Map.put k v m) ≡ length m
  unfolding Map.get Map.put
  length-put_known k v c [] h = ground arith
  length-put_known k v c ((j, w) ∷ m) h = ground (arith, length-put_known k v c m)

  length-put_le : (k : Bytes) (v : V) (m : Map V) → length (Map.put k v m) ≤ suc (length m)
  unfolding Map.put
  length-put_le k v [] = omega arith
  length-put_le k v ((j, w) ∷ m) = ground (arith, length-put_le k v m)

module _ {F : Type 0} (fl : Floats F) where
  length-clear_index : (i : ℕ) (m : Map (ℕ → F)) → length (clear_index fl i m) ≡ length m
  unfolding clear_index
  length-clear_index i [] = refl
  length-clear_index i ((k, col) ∷ m) = ground (arith, length-clear_index i m)

  length-put_value :
      (i : ℕ) (k : Bytes) (v : F) (m : Map (ℕ → F))
      → length m ≤ max_series
      → length (put_value fl i k v m) ≤ max_series
  unfolding put_value
  length-put_value i k v m le = elim (Option-cases (Map.get k m)) [
    | inl n ↦ ground (arith, n, length-put_le k (set_at i v (nan_column fl)) m)
    | inr (c, n) ↦ ground (arith, n, length-put_known k (set_at i v c) c m n)
  ]

  length-put_sample :
      (i : ℕ) (smp : Map F) (m : Map (ℕ → F))
      → length m ≤ max_series
      → length (put_sample fl i smp m) ≤ max_series
  unfolding put_sample
  length-put_sample i [] m le = le
  length-put_sample i ((k, v) ∷ smp) m le =
      length-put_sample i smp (put_value fl i k v m) (length-put_value i k v m le)

  -- A live ring of at most 48 series has at most 48 after `put`, at any time and of any sample.
  length-put_live :
      (at : ℤ) (smp : Map F) (l : LiveRing F)
      → length l.series ≤ max_series
      → length (put_live fl at smp l).series ≤ max_series
  unfolding put_live
  length-put_live (negsuc t) smp l le = le
  length-put_live (pos t) smp l le =
      length-put_sample (t / live_step % live_slots) smp
        (clear_index fl (t / live_step % live_slots) l.series)
        (rw (length-clear_index (t / live_step % live_slots) l.series) le)
