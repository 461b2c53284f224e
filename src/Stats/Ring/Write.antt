-- ===== src/Stats/Ring/Write.antt =====
-- The writers of an open ring: `publish`, `writeHeader`, `addSeries`, `setForgotten` and
-- `writeMinute` of pkg/stats/ring.go. Each runs under `r.mu`, so calls do not interleave.
use casa_os_common.Common.{
  ℕ, zero, suc, ◌+◌, ◌-◌, ◌*◌, ◌/◌, ◌%◌, ◌^◌, ◌||◌, Option, none, some, List, [], ◌∷◌, ◌++◌, length,
  ltb, leb, if◌then◌else◌, get_or, Bytes, eq_bytes,
}
use casa_os_common.Common.Int.{ℤ, to_word}
use casa_os_common.Stats.Errors.{cause, bad_key, series_cap}
use casa_os_common.Stats.Limits.{max_key_len, max_series, header_size, data_start, col_bytes}
use casa_os_common.Stats.Floats.{Floats}
use casa_os_common.Stats.Ring.Buffer.{Mem, Buf, zeroed, write, put_le}
use casa_os_common.Stats.Ring.Header.{Header, encode_header}
use casa_os_common.Stats.Ring.Layout.{ring_file_size, col_off, slot_of}
use casa_os_common.Stats.Ring.Disk.{M, ◌>>=◌, ◌>>◌, return, throw, get, put, write_at, sync}

-- `r.hdr, r.cur = h, idx` and `publish`
abbrev pub set_header : Header → ℕ → M (Unit {0})
set_header h idx = do
  r ← get
  put (record r { hdr = h; cur = idx; published = h.keys; forgotten = h.forgotten })

-- A buffer that holds these bytes.
abbrev pub buf : Bytes → Buf
buf bs = record { len = length bs; at = λ i. get_or bs i 0 }

-- `for i := 0; i < len(nan); i += 4 { PutUint32(nan[i:], bits) }`, `n` words to go.
unfoldable pub fill : ℕ → ℕ → ℕ → Mem → Mem
fill zero i bits m = m
fill (suc n) i bits m = fill n (i + 4) bits (write i (put_le 4 bits) m)

-- The index of a key in the header.
unfoldable pub index_of : ℕ → Bytes → List Bytes → Option ℕ
index_of i key [] = none
index_of i key (k ∷ ks) = if eq_bytes k key then some i else index_of (suc i) key ks

pub record MinuteValue (F : Type 0) : Type 0 where
  pub avg : F
  pub low : F
  pub high : F

module _ (crc : Bytes → ℕ) where
  unfoldable pub write_header : Header → M (Unit {0})
  write_header h = do
    r ← get
    let h' = record h { seq = (r.hdr.seq + 1) % 2 ^ 64 }
    let idx = 1 - r.cur
    write_at (encode_header crc h') (idx * header_size)
    sync
    set_header h' idx

  unfoldable pub set_forgotten : ℤ → M (Unit {0})
  unfolding write_header
  set_forgotten at = do r ← get; write_header (record r.hdr { forgotten = at })

module _ (crc : Bytes → ℕ) {F : Type 0} (fl : Floats F) where
  -- `addSeries` past the search for the key.
  unfoldable pub append_series : Bytes → ℕ → M ℕ
  append_series key n = do
    write_at
        (record { len = 3 * col_bytes; at = fill (3 * col_bytes / 4) 0 (fl.bits32 fl.nan) zeroed })
        (ring_file_size n)
    sync
    r ← get
    write_header crc (record r.hdr { keys = r.hdr.keys ++ key ∷ [] })
    return n

  unfoldable pub add_series : Bytes → M ℕ
  unfolding index_of append_series
  add_series key r =
      let n = length r.hdr.keys in
      if ltb (length key) 1 || ltb max_key_len (length key)
      then throw (cause bad_key) r
      else elim (index_of 0 key r.hdr.keys) [
        | some i ↦ return i r
        | none ↦ if leb max_series n then throw (cause series_cap) r else append_series key n r
      ]

module _ {F : Type 0} (fl : Floats F) where
  -- A series without a value in `vals` has a gap.
  abbrev pub value_or_gap : Option (MinuteValue F) → MinuteValue F
  value_or_gap none = record { avg = fl.nan; low = fl.nan; high = fl.nan }
  value_or_gap (some v) = v

  -- `putF32` and the write of column `c` of series `i`
  abbrev pub write_value : ℕ → ℕ → ℕ → F → M (Unit {0})
  write_value i c slot x = write_at (buf (put_le 4 (fl.bits32 x))) (col_off i c + slot * 4)

  -- One turn of the loop: the columns of series `i`.
  unfoldable pub write_series : ℕ → ℕ → MinuteValue F → M (Unit {0})
  write_series i slot v = do
    write_value i 0 slot v.avg
    write_value i 1 slot v.low
    write_value i 2 slot v.high

  -- The loop over `r.hdr.keys`: `n` series from series `i` on.
  unfoldable pub write_values : ℕ → ℕ → ℕ → (ℕ → Option (MinuteValue F)) → M (Unit {0})
  unfolding write_series
  write_values zero i slot vals = return tt
  write_values (suc n) i slot vals = do
    write_series i slot (value_or_gap (vals i))
    write_values n (suc i) slot vals

  unfoldable pub write_minute : ℤ → (ℕ → Option (MinuteValue F)) → M (Unit {0})
  unfolding write_values
  write_minute minute vals = do
    let slot = slot_of minute
    write_at (buf (put_le 4 0)) (data_start + slot * 4)
    sync
    r ← get
    write_values (length r.hdr.keys) 0 slot vals
    sync
    write_at (buf (put_le 4 (to_word (2 ^ 32) minute))) (data_start + slot * 4)
