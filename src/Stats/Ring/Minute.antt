-- ===== src/Stats/Ring/Minute.antt =====
-- `writeMinute` of pkg/stats/ring.go, word by word: the slot of the minute, and the rest of the file.
use casa_os_common.Common.{
  ℕ, ◌+◌, ◌*◌, ◌^◌, ◌≤◌, ◌<◌, ◌≡◌, ◌∙◌, ◌≢◌, inl, inr, arith, length, Option, [],
}
use casa_os_common.Common.Int.{ℤ, to_word}
use casa_os_common.Stats.Errors.{ok}
use casa_os_common.Stats.Limits.{minutes}
use casa_os_common.Stats.Floats.{Floats}
use casa_os_common.Stats.Ring.Buffer.{put_le}
use casa_os_common.Stats.Ring.Layout.{slot_of, slot_of-lt, ring_file_size}
use casa_os_common.Stats.Ring.Disk.{File, Ring}
use casa_os_common.Stats.Ring.Write.{MinuteValue, value_or_gap, write_minute}
use casa_os_common.Stats.Ring.Words.{
  word, store_word, word-store_word, word-store_word_ne, size-store_word,
}
use casa_os_common.Stats.Ring.Commit.{
  part, minute_file, values_file, write_minute-minute_file, values_file_other, values_file-part,
  values_file-size,
}

module _ {F : Type 0} (fl : Floats F) (minute : ℤ) (vals : ℕ → Option (MinuteValue F)) where
  -- What a file holds of a committed minute of a ring with `n` series; the rest is as in `f`.
  pub record Committed (n : ℕ) (f g : File) : Type 0 where
    pub stamp : word g 0 (slot_of minute) ≡ put_le 4 (to_word (2 ^ 32) minute)
    pub values :
        (i c : ℕ)
        → i < n
        → c < 3
        → word g (1 + 3 * i + c) (slot_of minute)
          ≡ put_le 4 (fl.bits32 (part c (value_or_gap fl (vals i))))
    pub others : (q s : ℕ) → s < minutes → s ≢ slot_of minute → word g q s ≡ word f q s
    pub same_size : g.size ≡ f.size

  minute_file-Committed :
      (n : ℕ) (f : File)
      → ring_file_size n ≤ f.size
      → Committed n f (minute_file fl minute vals n f)
  unfolding minute_file
  minute_file-Committed n f h =
      let s = slot_of minute in
      let lt = slot_of-lt minute in
      let g = store_word 0 0 s f in
      let k = values_file fl n 0 s vals g in
      let w = to_word (2 ^ 32) minute in
      let size_g = size-store_word 0 0 s f (omega arith) in
      let size_k = values_file-size fl s lt vals n 0 g (omega arith) in
      record {
        stamp = word-store_word w 0 s k;
        values = λ i c hi hc.
            word-store_word_ne w 0 s (1 + 3 * i + c) s k lt lt (omega arith)
            ∙ values_file-part fl s lt vals n 0 i c g (omega arith) (omega arith) hc;
        others = λ q t ht ne.
            word-store_word_ne w 0 s q t k lt ht (inr ne)
            ∙ values_file_other fl s lt vals n 0 g q t ht (inl ne)
            ∙ word-store_word_ne 0 0 s q t f lt ht (inr ne);
        same_size = size-store_word w 0 s k (omega arith) ∙ size_k ∙ size_g;
      }

  -- Where no call fails, `writeMinute` commits the minute and changes nothing else of the ring.
  pub write_minute-Committed :
      (r : Ring)
      → r.plan ≡ []
      → ring_file_size (length r.hdr.keys) ≤ r.file.size
      → (g : File) × (write_minute fl minute vals r ≡ (ok tt, record r { file = g }))
        × Committed (length r.hdr.keys) r.file g
  write_minute-Committed r e h = (
    minute_file fl minute vals (length r.hdr.keys) r.file,
    write_minute-minute_file fl minute vals r e,
    minute_file-Committed (length r.hdr.keys) r.file h,
  )
