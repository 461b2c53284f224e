-- ===== src/Stats/Ring/Window.antt =====
-- The lock-free readers of a ring file: `readWindow` and `newestMinute` of pkg/stats/ring.go.
-- Writers may run between two reads, so each `ReadAt` has a file of its own to read: call `k` of
-- `readCol` reads `views k 0` for its first segment and `views k 1` for its second; `none` is a
-- failing read.
use casa_os_common.Common.{
  ℕ, zero, suc, ◌+◌, ◌-◌, ◌*◌, ◌/◌, ◌^◌, Bool, false, not, ◌||◌, Option, none, some, List, [], ◌∷◌,
  length, ltb, leb, ◌==◌, if◌then◌else◌, min, max, Bytes, eq_bytes,
}
use casa_os_common.Common.Int.{ℤ, pos, ◌+ℤ◌, ◌-ℤ◌, pos_part, ltb_ℤ, to_word}
use casa_os_common.Stats.Errors.{
  Result, ok, err, cause, bad_window, ring_closed, io_error, unexpected_eof, ◌>>=◌,
}
use casa_os_common.Stats.Limits.{minutes, data_start, col_bytes}
use casa_os_common.Stats.Floats.{Floats}
use casa_os_common.Stats.Ring.Buffer.{Mem, read, get_le}
use casa_os_common.Stats.Ring.Layout.{col_off, slot_of}
use casa_os_common.Stats.Ring.Disk.{File}
use casa_os_common.Stats.Ring.Write.{MinuteValue}

abbrev pub Views : Type 0
Views = ℕ → ℕ → Option File

-- `n` bytes from `off` on, or an error.
unfoldable pub read_full : Option File → ℕ → ℕ → Result Mem
read_full none n off = err (cause io_error)
read_full (some f) n off =
    if ltb f.size (off + n) then err (cause unexpected_eof) else ok (λ i. f.at (off + i))

-- `readCol`: the `n` cells of a column from slot `first` on, round the end of the column.
unfoldable pub read_col : Views → ℕ → ℕ → ℕ → ℕ → Result Mem
read_col views k first n base =
    let c = min n (minutes - first) in
    read_full (views k 0) (c * 4) (base + first * 4) >>= λ a.
    if leb n c
    then ok a
    else read_full (views k 1) ((n - c) * 4) base >>= λ b.
        ok (λ i. if ltb i (c * 4) then a i else b (i - c * 4))

abbrev pub word_at : Mem → ℕ → ℕ
word_at m j = get_le (read (j * 4) 4 m)

-- `len(only) > 0 && !slices.Contains(only, k)`
unfoldable pub contains : List Bytes → Bytes → Bool
contains [] k = false
contains (x ∷ xs) k = eq_bytes x k || contains xs k

abbrev pub skipped : List Bytes → Bytes → Bool
skipped [] k = false
skipped (x ∷ xs) k = not (contains (x ∷ xs) k)

abbrev pub Cols : Type 0
Cols = Mem × Mem × Mem

-- The columns of the series that are not skipped, series `i` first.
unfoldable pub read_cols :
    Views → ℕ → ℕ → List Bytes → ℕ → List Bytes → Result (List (Bytes × Cols))
read_cols views first n only i [] = ok []
read_cols views first n only i (k ∷ ks) =
    let rest = read_cols views first n only (suc i) ks in
    if skipped only k
    then rest
    else read_col views (1 + 3 * i) first n (col_off i 0) >>= λ a.
        read_col views (2 + 3 * i) first n (col_off i 1) >>= λ b.
        read_col views (3 + 3 * i) first n (col_off i 2) >>= λ c.
        rest >>= λ cols. ok ((k, (a, b, c)) ∷ cols)

module _ {F : Type 0} (fl : Floats F) where
  -- `minuteCell`: `none` for one that is not OK.
  abbrev pub Cell : Type 0
  Cell = Option (MinuteValue F)

  abbrev pub value_at : Mem → ℕ → F
  value_at m j = fl.from32 (word_at m j)

  -- One turn of the loop over the window.
  unfoldable pub cell_at : ℤ → Mem → Mem → Cols → ℕ → Cell
  cell_at from before after (a, b, c) j =
      let want = to_word (2 ^ 32) (from +ℤ pos j) in
      if not (word_at before j == want) || not (word_at after j == want)
      then none
      else if fl.is_nan (value_at a j) || fl.is_nan (value_at b j) || fl.is_nan (value_at c j)
      then none
      else some (record { avg = value_at a j; low = value_at b j; high = value_at c j })

  -- `n` cells from `j` on.
  unfoldable pub cells_from : ℤ → Mem → Mem → Cols → ℕ → ℕ → List Cell
  unfolding cell_at
  cells_from from before after cols zero j = []
  cells_from from before after cols (suc n) j =
      cell_at from before after cols j ∷ cells_from from before after cols n (suc j)

  abbrev pub series_cells : ℤ → Mem → Mem → ℕ → List (Bytes × Cols) → List (Bytes × List Cell)
  series_cells from before after n [] = []
  series_cells from before after n ((k, cols) ∷ rest) =
      (k, cells_from from before after cols n 0) ∷ series_cells from before after n rest

  -- `keys` is what `r.series()` loads and `closed` what `r.rlock()` sees.
  unfoldable pub read_window :
      (closed : Bool) (keys : List Bytes)
      → Views
      → ℤ
      → ℤ
      → List Bytes
      → Result (List (Bytes × List Cell))
  read_window closed keys views from to only =
      let size = to -ℤ from +ℤ pos 1 in
      let n = pos_part size in
      let first = slot_of from in
      if ltb_ℤ size (pos 1) || ltb_ℤ (pos minutes) size
      then err (cause bad_window)
      else if closed
      then err (cause ring_closed)
      else read_col views 0 first n data_start >>= λ before.
          read_cols views first n only 0 keys >>= λ cols.
          read_col views (1 + 3 * length keys) first n data_start >>= λ after.
          ok (series_cells from before after n cols)

-- The largest stamp of `n` words from word `i` on, or `m`.
unfoldable pub newest_from : ℕ → ℕ → Mem → ℕ → ℕ
newest_from zero i b m = m
newest_from (suc n) i b m = newest_from n (suc i) b (max m (word_at b i))

unfoldable pub newest_minute : (closed : Bool) → Option File → Result ℕ
unfolding newest_from
newest_minute closed view =
    if closed
    then err (cause ring_closed)
    else read_full view col_bytes data_start >>= λ b. ok (newest_from (col_bytes / 4) 0 b 0)
