-- ===== src/Stats/Ring/Commit.antt =====
-- `writeMinute` of pkg/stats/ring.go where no call of the file fails: what the file then holds.
use native.Mathlib.Decide.{ℕ_discrete}
use casa_os_common.Common.{
  ℕ, zero, suc, ◌+◌, ◌*◌, ◌^◌, ◌≤◌, ◌<◌, ◌≡◌, refl, ap, ◌∙◌, ◌⊎◌, ◌≢◌, arith, length, Option, [],
}
use casa_os_common.Common.Int.{ℤ, to_word}
use casa_os_common.Stats.Errors.{ok}
use casa_os_common.Stats.Limits.{minutes, data_start}
use casa_os_common.Stats.Floats.{Floats}
use casa_os_common.Stats.Ring.Buffer.{put_le}
use casa_os_common.Stats.Ring.Layout.{slot_of, ring_file_size}
use casa_os_common.Stats.Ring.Disk.{File, Ring, write_at, sync, >>=-ok, write_at_free, sync_free}
use casa_os_common.Stats.Ring.Write.{
  MinuteValue, buf, value_or_gap, write_value, write_series, write_values, write_minute,
}
use casa_os_common.Stats.Ring.Words.{
  word_pos, word, store_word, word-store_word, word-store_word_ne, size-store_word,
}

-- The value of column `c` of a series.
abbrev pub part : {F : Type 0} → ℕ → MinuteValue F → F
part zero v = v.avg
part (suc zero) v = v.low
part (suc (suc c)) v = v.high

module _ {F : Type 0} (fl : Floats F) where
  -- The words of one series in a slot.
  abbrev series_file : ℕ → ℕ → MinuteValue F → File → File
  series_file i slot v f = store_word (fl.bits32 v.high) (3 + 3 * i) slot (
      store_word (fl.bits32 v.low) (2 + 3 * i) slot
        (store_word (fl.bits32 v.avg) (1 + 3 * i) slot f))

  -- The file behind the loop over the series.
  pub values_file : ℕ → ℕ → ℕ → (ℕ → Option (MinuteValue F)) → File → File
  values_file zero i slot vals f = f
  values_file (suc n) i slot vals f =
      values_file n (suc i) slot vals (series_file i slot (value_or_gap fl (vals i)) f)

  write_word :
      (w off col slot : ℕ) (r : Ring)
      → r.plan ≡ []
      → off ≡ word_pos col slot
      → write_at (buf (put_le 4 w)) off r
        ≡ (ok tt, record r { file = store_word w col slot r.file })
  write_word w off col slot r e p = rw p (write_at_free (buf (put_le 4 w)) (word_pos col slot) r e)

  write_series-series_file :
      (i slot : ℕ) (v : MinuteValue F) (r : Ring)
      → r.plan ≡ []
      → write_series fl i slot v r ≡ (ok tt, record r { file = series_file i slot v r.file })
  unfolding write_series
  write_series-series_file i slot v r e =
      >>=-ok (write_value fl i 0 slot v.avg) _ r (write_word _ _ (1 + 3 * i) slot r e (omega arith))
      ∙ >>=-ok (write_value fl i 1 slot v.low) _ _
          (write_word _ _ (2 + 3 * i) slot _ e (omega arith))
      ∙ write_word _ _ (3 + 3 * i) slot _ e (omega arith)

  write_values-values_file :
      (n i slot : ℕ) (vals : ℕ → Option (MinuteValue F)) (r : Ring)
      → r.plan ≡ []
      → write_values fl n i slot vals r
        ≡ (ok tt, record r { file = values_file n i slot vals r.file })
  unfolding write_values values_file
  write_values-values_file zero i slot vals r e = refl
  write_values-values_file (suc n) i slot vals r e =
      >>=-ok (write_series fl i slot (value_or_gap fl (vals i))) _ r
        (write_series-series_file i slot (value_or_gap fl (vals i)) r e)
      ∙ write_values-values_file n (suc i) slot vals _ e

  -- The file behind the whole call.
  unfoldable pub minute_file : ℤ → (ℕ → Option (MinuteValue F)) → ℕ → File → File
  minute_file minute vals n f =
      store_word (to_word (2 ^ 32) minute) 0 (slot_of minute)
        (values_file n 0 (slot_of minute) vals (store_word 0 0 (slot_of minute) f))

  pub write_minute-minute_file :
      (minute : ℤ) (vals : ℕ → Option (MinuteValue F)) (r : Ring)
      → r.plan ≡ []
      → write_minute fl minute vals r
        ≡ (ok tt, record r { file = minute_file minute vals (length r.hdr.keys) r.file })
  unfolding write_minute minute_file
  write_minute-minute_file minute vals r e =
      let slot = slot_of minute in
      >>=-ok (write_at (buf (put_le 4 0)) (data_start + slot * 4)) _ r
        (write_word 0 _ 0 slot r e (omega arith))
      ∙ >>=-ok sync _ _ (sync_free _ e)
      ∙ >>=-ok (write_values fl (length r.hdr.keys) 0 slot vals) _ _
          (write_values-values_file (length r.hdr.keys) 0 slot vals _ e)
      ∙ >>=-ok sync _ _ (sync_free _ e)
      ∙ write_word (to_word (2 ^ 32) minute) _ 0 slot _ e (omega arith)

  module _ (slot : ℕ) (slot_in : slot < minutes) where
    series_file_other :
        (i : ℕ) (v : MinuteValue F) (f : File) (q s : ℕ)
        → s < minutes
        → (s ≢ slot) ⊎ (q < 1 + 3 * i) ⊎ (3 + 3 * i < q)
        → word (series_file i slot v f) q s ≡ word f q s
    series_file_other i v f q s h ne =
        word-store_word_ne _ (3 + 3 * i) slot q s _ slot_in h (ground arith)
        ∙ word-store_word_ne _ (2 + 3 * i) slot q s _ slot_in h (ground arith)
        ∙ word-store_word_ne _ (1 + 3 * i) slot q s f slot_in h (ground arith)

    series_file-part :
        (i c : ℕ) (v : MinuteValue F) (f : File)
        → c < 3
        → word (series_file i slot v f) (1 + 3 * i + c) slot ≡ put_le 4 (fl.bits32 (part c v))
    series_file-part i zero v f h =
        ap (λ q. word (series_file i slot v f) q slot) (omega arith)
        ∙ word-store_word_ne _ (3 + 3 * i) slot (1 + 3 * i) slot _ slot_in slot_in (omega arith)
        ∙ word-store_word_ne _ (2 + 3 * i) slot (1 + 3 * i) slot _ slot_in slot_in (omega arith)
        ∙ word-store_word _ (1 + 3 * i) slot f
    series_file-part i (suc zero) v f h =
        ap (λ q. word (series_file i slot v f) q slot) (omega arith)
        ∙ word-store_word_ne _ (3 + 3 * i) slot (2 + 3 * i) slot _ slot_in slot_in (omega arith)
        ∙ word-store_word _ (2 + 3 * i) slot _
    series_file-part i (suc (suc zero)) v f h =
        ap (λ q. word (series_file i slot v f) q slot) (omega arith)
        ∙ word-store_word _ (3 + 3 * i) slot _
    series_file-part i (suc (suc (suc c))) v f h = absurd (omega arith)

    module _ (vals : ℕ → Option (MinuteValue F)) where
      pub values_file_other :
          (n i : ℕ) (f : File) (q s : ℕ)
          → s < minutes
          → (s ≢ slot) ⊎ (q < 1 + 3 * i)
          → word (values_file n i slot vals f) q s ≡ word f q s
      unfolding values_file
      values_file_other zero i f q s h ne = refl
      values_file_other (suc n) i f q s h ne =
          values_file_other n (suc i) _ q s h (ground arith)
          ∙ series_file_other i (value_or_gap fl (vals i)) f q s h (ground arith)

      pub values_file-part :
          (n i j c : ℕ) (f : File)
          → i ≤ j
          → j < i + n
          → c < 3
          → word (values_file n i slot vals f) (1 + 3 * j + c) slot
            ≡ put_le 4 (fl.bits32 (part c (value_or_gap fl (vals j))))
      unfolding values_file
      values_file-part zero i j c f lo hi hc = absurd (omega arith)
      values_file-part (suc n) i j c f lo hi hc = elim (ℕ_discrete i j) [
        | yes e ↦ rw (← e) (
            values_file_other n (suc i) _ (1 + 3 * i + c) slot slot_in (omega arith)
            ∙ series_file-part i c (value_or_gap fl (vals i)) f hc)
        | no ne ↦ values_file-part n (suc i) j c _ (omega arith) (omega arith) hc
      ]

      pub values_file-size :
          (n i : ℕ) (f : File)
          → ring_file_size (i + n) ≤ f.size
          → (values_file n i slot vals f).size ≡ f.size
      unfolding values_file
      values_file-size zero i f h = refl
      values_file-size (suc n) i f h =
          let a =
            size-store_word (fl.bits32 (value_or_gap fl (vals i)).avg) (1 + 3 * i) slot f
              (omega arith) in
          let g = store_word (fl.bits32 (value_or_gap fl (vals i)).avg) (1 + 3 * i) slot f in
          let b =
            size-store_word (fl.bits32 (value_or_gap fl (vals i)).low) (2 + 3 * i) slot g
              (omega arith) in
          let k = store_word (fl.bits32 (value_or_gap fl (vals i)).low) (2 + 3 * i) slot g in
          let c =
            size-store_word (fl.bits32 (value_or_gap fl (vals i)).high) (3 + 3 * i) slot k
              (omega arith) in
          values_file-size n (suc i) _ (omega arith) ∙ c ∙ b ∙ a
