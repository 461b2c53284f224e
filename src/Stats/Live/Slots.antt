-- ===== src/Stats/Live/Slots.antt =====
-- `put` and `snapshot` of pkg/stats/live.go, seen slot by slot.
use casa_os_common.Common.{
  ℕ, ◌+◌, ◌/◌, ◌%◌, ◌≡◌, ◌∙◌, ap, arith, false, Option, none, some, [], ◌∷◌, ◌==◌, if◌then◌else◌,
  inl, inr, Option-cases, Bool-cases, Bytes, eq_bytes, eq_bytes_iff,
}
use casa_os_common.Common.Int.{ℤ, pos, ◌+ℤ◌, eq_ℤ, eq_of_parts, int_laws, rem, pos_part}
use casa_os_common.Common.Map
use casa_os_common.Common.Map.{Map}
use casa_os_common.Stats.Limits.{live_slots}
use casa_os_common.Stats.Floats.{Floats}
use casa_os_common.Stats.Live.{
  LiveRing, live_step, set_at, live_index, clear_index, put_value, put_sample, put_live, slot_value,
  nan_column,
}

-- No key is listed twice.
abbrev pub NoRepeat {ℓ} : {V : Type ℓ} → Map V → Type ℓ
NoRepeat [] = Unit
NoRepeat ((k, v) ∷ m) = (Map.get k m ≡ none) × NoRepeat m

pos-add : (a b : ℕ) → pos a +ℤ pos b ≡ pos (a + b)
pos-add a b = omega int_laws

live_index_pos : (n : ℕ) → live_index (pos n) ≡ n % 180
unfolding live_index
live_index_pos n =
    ap (λ z. pos_part (rem z live_slots)) (pos-add (n % live_slots) live_slots) ∙ omega arith

module _ {F : Type 0} (fl : Floats F) where
  abbrev after_sample : ℕ → (ℕ → F) → Option F → ℕ → F
  after_sample i col none = col
  after_sample i col (some v) = set_at i v col

  get-clear_index :
      (i : ℕ) (k : Bytes) (col : ℕ → F) (m : Map (ℕ → F))
      → Map.get k m ≡ some col
      → Map.get k (clear_index fl i m) ≡ some (set_at i fl.nan col)
  unfolding Map.get clear_index
  get-clear_index i k col [] h = ground arith
  get-clear_index i k col ((j, c) ∷ m) h = ground (arith, get-clear_index i k col m)

  get-put_value :
      (i : ℕ) (j k : Bytes) (v : F) (col : ℕ → F) (m : Map (ℕ → F))
      → Map.get k m ≡ some col
      → Map.get k (put_value fl i j v m) ≡ some (if eq_bytes j k then set_at i v col else col)
  unfolding put_value
  get-put_value i j k v col m h = elim (Option-cases (Map.get j m)) [
    | inl n ↦ ground (arith, h, n, Map.get-put j k (set_at i v (nan_column fl)) m, eq_bytes_iff j k)
    | inr (c, n) ↦ ground (arith, h, n, Map.get-put j k (set_at i v c) m, eq_bytes_iff j k)
  ]

  get-put_sample :
      (i : ℕ) (k : Bytes) (smp : Map F) (col : ℕ → F) (m : Map (ℕ → F))
      → NoRepeat smp
      → Map.get k m ≡ some col
      → Map.get k (put_sample fl i smp m) ≡ some (after_sample i col (Map.get k smp))
  unfolding put_sample Map.get
  get-put_sample i k [] col m nr h = h
  get-put_sample i k ((j, v) ∷ smp) col m (n, nr) h =
      let col' = if eq_bytes j k then set_at i v col else col in
      let ih =
        get-put_sample i k smp col' (put_value fl i j v m) nr (get-put_value i j k v col m h) in
      ground (arith, ih, n, eq_bytes_iff j k)

  -- The value of series `k` in slot `s`; `none` where there is no such series.
  abbrev pub value_in : LiveRing F → Bytes → ℤ → Option F
  value_in l k s = elim (Map.get k l.series) [
    | none ↦ none
    | some col ↦ some (slot_value fl l.stamp col s)
  ]

  abbrev pub sampled : Bytes → Map F → F
  sampled k smp = elim (Map.get k smp) [ none ↦ fl.nan | some v ↦ v ]

  slot_value_put :
      (q : ℕ) (stamp : ℕ → ℤ) (col : ℕ → F) (o : Option F) (s : ℤ)
      → (let i = q % live_slots in
          slot_value fl (set_at i (pos q) stamp) (after_sample i (set_at i fl.nan col) o) s ≡ (
            if eq_ℤ s (pos q)
            then elim o [ none ↦ fl.nan | some v ↦ v ]
            else if live_index s == i
            then fl.nan
            else slot_value fl stamp col s))
  unfolding slot_value
  slot_value_put q stamp col o s = elim (Bool-cases (eq_ℤ s (pos q))) [
    | inl e ↦
        (let same : s ≡ pos q = eq_of_parts s (pos q) (ground arith) in
          let u : live_index s ≡ q % live_slots = ap (λ z. live_index z) same ∙ live_index_pos q in
          ground (arith, e, u))
    | inr e ↦
        (let flip : eq_ℤ (pos q) s ≡ false = ground arith in
          elim o [ none ↦ ground (arith, e, flip) | some v ↦ ground (arith, e, flip) ])
  ]

  -- After `put` of a sample at second `t`, a series that the ring has holds in the slot of `t` the
  -- value of the sample, or a gap if the sample has none. Every other slot that shares its index is a
  -- gap, and all other slots are as before.
  pub put_live-value_in :
      (t : ℕ) (smp : Map F) (l : LiveRing F) (k : Bytes) (col : ℕ → F) (s : ℤ)
      → NoRepeat smp
      → Map.get k l.series ≡ some col
      → value_in (put_live fl (pos t) smp l) k s ≡ (
          if eq_ℤ s (pos (t / live_step))
          then some (sampled k smp)
          else if live_index s == t / live_step % live_slots
          then some fl.nan
          else value_in l k s)
  unfolding put_live slot_value
  put_live-value_in t smp l k col s nr h =
      let i = t / live_step % live_slots in
      let c = get-clear_index i k col l.series h in
      let g = get-put_sample i k smp (set_at i fl.nan col) (clear_index fl i l.series) nr c in
      let w = slot_value_put (t / live_step) l.stamp col (Map.get k smp) s in
      ground (arith, h, g, w)
