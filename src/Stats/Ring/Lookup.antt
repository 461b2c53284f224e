-- ===== src/Stats/Ring/Lookup.antt =====
-- `readWindow` after `writeMinute` (pkg/stats/ring.go): the window holds what was committed.
use casa_os_common.Common.{
  ℕ, ◌+◌, ◌*◌, ◌^◌, ◌≤◌, ◌<◌, ◌≡◌, sym, ap, ◌∙◌, ◌≢◌, arith, length, false, ◌||◌, if◌then◌else◌,
  Option, none, some, List, [], Bytes,
}
use casa_os_common.Common.Int.{ℤ, pos, ◌+ℤ◌, ◌-ℤ◌, to_word, int_laws}
use casa_os_common.Stats.Errors.{ok}
use casa_os_common.Stats.Limits.{minutes}
use casa_os_common.Stats.Floats.{Floats}
use casa_os_common.Stats.Ring.Buffer.{get_le, get_le-put_le}
use casa_os_common.Stats.Ring.Layout.{slot_of, slot_of-lt, ring_file_size}
use casa_os_common.Stats.Ring.Disk.{File, Ring}
use casa_os_common.Stats.Ring.Write.{MinuteValue, value_or_gap, write_minute}
use casa_os_common.Stats.Ring.Words.{word}
use casa_os_common.Stats.Ring.Window.{Cell, read_window}
use casa_os_common.Stats.Ring.Scan.{
  still, window_of, cell_of, value_of, read_col-still, read_cols-still,
}
use casa_os_common.Stats.Ring.Commit.{part}
use casa_os_common.Stats.Ring.Minute.{Committed, write_minute-Committed}

to_word32-lt : (m : ℤ) → to_word (2 ^ 32) m < 2 ^ 32
to_word32-lt m = ground arith

module _ {F : Type 0} (fl : Floats F) where
  -- A window of one to 10 080 minutes that no writer disturbs is read whole: each cell is what the
  -- file says of its minute.
  pub read_window-still :
      (f : File) (keys only : List Bytes) (from : ℤ) (n : ℕ)
      → 1 ≤ n
      → n ≤ minutes
      → ring_file_size (length keys) ≤ f.size
      → read_window fl false keys (still f) from (from +ℤ pos n -ℤ pos 1) only
        ≡ ok (window_of fl f from n only 0 keys)
  unfolding read_window
  read_window-still f keys only from n lo hi fits =
      let lt = slot_of-lt from in
      let (before, rb, sb) = read_col-still f 0 (slot_of from) n 0 lt hi (omega arith) in
      let (after, ra, sa) =
        read_col-still f 0 (slot_of from) n (1 + 3 * length keys) lt hi (omega arith) in
      let (cols, rc, sc) =
        read_cols-still fl f from n before after sb sa only keys 0 hi (omega arith) in
      rw (size, rb, rc, ra, sc) (ground arith)
    where
      size : from +ℤ pos n -ℤ pos 1 -ℤ from +ℤ pos 1 ≡ pos n
      size = omega int_laws

  -- What a reader sees of values that were stored: they are rounded to float32; a NaN is a gap.
  abbrev pub stored : MinuteValue F → Cell fl
  stored v =
      if fl.is_nan v.avg || fl.is_nan v.low || fl.is_nan v.high
      then none
      else some (record {
        avg = fl.from32 (fl.bits32 v.avg);
        low = fl.from32 (fl.bits32 v.low);
        high = fl.from32 (fl.bits32 v.high);
      })

  module _ (minute : ℤ) (vals : ℕ → Option (MinuteValue F)) (n : ℕ) (f g : File)
      (v : Committed fl minute vals n f g) where
    value_of-Committed :
        (i c : ℕ)
        → i < n
        → c < 3
        → value_of fl g (1 + 3 * i + c) minute
          ≡ fl.from32 (fl.bits32 (part c (value_or_gap fl (vals i))))
    value_of-Committed i c hi hc =
        ap (λ b. fl.from32 (get_le b)) (v.values i c hi hc)
        ∙ ap fl.from32 (get_le-put_le 4 _ (fl.bits32-lt (part c (value_or_gap fl (vals i)))))

    column :
        (i c q : ℕ)
        → i < n
        → c < 3
        → q ≡ 1 + 3 * i + c
        → value_of fl g q minute ≡ fl.from32 (fl.bits32 (part c (value_or_gap fl (vals i))))
    column i c q hi hc e = ap (λ k. value_of fl g k minute) e ∙ value_of-Committed i c hi hc

    stamp_is : get_le (word g 0 (slot_of minute)) ≡ to_word (2 ^ 32) minute
    stamp_is = ap get_le v.stamp ∙ get_le-put_le 4 (to_word (2 ^ 32) minute) (to_word32-lt minute)

    cell_of_self : (i : ℕ) → i < n → cell_of fl g i minute ≡ stored (value_or_gap fl (vals i))
    unfolding cell_of
    cell_of_self i h =
        let x = value_or_gap fl (vals i) in
        ground (
          arith,
          stamp_is,
          column i 0 (1 + 3 * i) h (omega arith) (omega arith),
          column i 1 (2 + 3 * i) h (omega arith) (omega arith),
          column i 2 (3 + 3 * i) h (omega arith) (omega arith),
          fl.from32-bits32_nan x.avg,
          fl.from32-bits32_nan x.low,
          fl.from32-bits32_nan x.high,
        )

    cell_of_other :
        (i : ℕ) (m : ℤ) → slot_of m ≢ slot_of minute → cell_of fl g i m ≡ cell_of fl f i m
    unfolding cell_of
    cell_of_other i m ne =
        let o = λ (q : ℕ). v.others q (slot_of m) (slot_of-lt m) ne in
        ground (
          arith,
          ap get_le (o 0),
          ap (λ b. fl.from32 (get_le b)) (o (1 + 3 * i)),
          ap (λ b. fl.from32 (get_le b)) (o (2 + 3 * i)),
          ap (λ b. fl.from32 (get_le b)) (o (3 + 3 * i)),
        )

    cell_of_gone :
        (i : ℕ) (m : ℤ)
        → slot_of m ≡ slot_of minute
        → to_word (2 ^ 32) m ≢ to_word (2 ^ 32) minute
        → cell_of fl g i m ≡ none
    unfolding cell_of
    cell_of_gone i m e ne =
        let p = ap (λ s. get_le (word g 0 s)) e ∙ stamp_is in ground (arith, p, sym p)

  -- What readers of `g` see of a ring with `n` series, after minute `minute` was added to `f`: the
  -- minute as stored, minutes of other slots as before, and no older minute of its slot.
  pub record ReadBack (minute : ℤ) (vals : ℕ → Option (MinuteValue F)) (n : ℕ) (f g : File)
      : Type 0 where
    pub self : (i : ℕ) → i < n → cell_of fl g i minute ≡ stored (value_or_gap fl (vals i))
    pub other : (i : ℕ) (m : ℤ) → slot_of m ≢ slot_of minute → cell_of fl g i m ≡ cell_of fl f i m
    pub gone :
        (i : ℕ) (m : ℤ)
        → slot_of m ≡ slot_of minute
        → to_word (2 ^ 32) m ≢ to_word (2 ^ 32) minute
        → cell_of fl g i m ≡ none

  -- Where no call fails, `writeMinute` succeeds and changes the file alone. A reader then sees the
  -- minute that was written, its values rounded to float32, or a gap for a series without a value
  -- or with a NaN; minutes of other slots as before; and any other minute of its slot as a gap.
  pub write_minute-ReadBack :
      (minute : ℤ) (vals : ℕ → Option (MinuteValue F)) (r : Ring)
      → r.plan ≡ []
      → ring_file_size (length r.hdr.keys) ≤ r.file.size
      → (g : File) × (write_minute fl minute vals r ≡ (ok tt, record r { file = g }))
        × ReadBack minute vals (length r.hdr.keys) r.file g
  write_minute-ReadBack minute vals r e h =
      let (g, w, v) = write_minute-Committed fl minute vals r e h in
      let n = length r.hdr.keys in
      (
        g,
        w,
        record {
          self = cell_of_self minute vals n r.file g v;
          other = cell_of_other minute vals n r.file g v;
          gone = cell_of_gone minute vals n r.file g v;
        },
      )
