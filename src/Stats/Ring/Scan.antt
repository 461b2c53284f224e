-- ===== src/Stats/Ring/Scan.antt =====
-- `readWindow` of pkg/stats/ring.go on a file that no writer changes meanwhile.
use mathlib.Core.Path.{ap₂}
use native.Mathlib.Decide.{dec_lt}
use casa_os_common.Common.{
  ℕ, zero, suc, ◌+◌, ◌-◌, ◌*◌, ◌%◌, ◌^◌, ◌≤◌, ◌<◌, ◌≡◌, refl, sym, ap, ◌∙◌, inl, inr, arith, length,
  not, ◌||◌, ◌==◌, none, some, List, [], ◌∷◌, ltb, if◌then◌else◌, min, Bytes, Bool-cases,
}
use casa_os_common.Common.Int.{ℤ, pos, ◌+ℤ◌, to_word}
use casa_os_common.Stats.Errors.{ok}
use casa_os_common.Stats.Limits.{minutes, data_start, col_bytes}
use casa_os_common.Stats.Floats.{Floats}
use casa_os_common.Stats.Ring.Buffer.{Mem, read, get_le, read_move}
use casa_os_common.Stats.Ring.Layout.{col_off, slot_of, slot_of-lt, slot_of_add, ring_file_size}
use casa_os_common.Stats.Ring.Disk.{File}
use casa_os_common.Stats.Ring.Words.{word, word_pos}
use casa_os_common.Stats.Ring.Window.{
  Views, Cols, Cell, read_full, read_col, read_cols, cell_at, cells_from, series_cells, word_at,
  skipped,
}

-- Nothing is written during the call.
abbrev pub still : File → Views
still f k s = some f

read_full_ok :
    (f : File) (n off : ℕ) → off + n ≤ f.size → read_full (some f) n off ≡ ok (λ i. f.at (off + i))
unfolding read_full
read_full_ok f n off h = ground arith

-- The cell that a column shows at place `j` of a window.
abbrev pub Shows : File → ℕ → ℕ → ℕ → Mem → Type 0
Shows f col first n m = (j : ℕ) → j < n → read (j * 4) 4 m ≡ word f col ((first + j) % minutes)

module _ (f : File) (col first n k : ℕ) (first_in : first < minutes) (n_in : n ≤ minutes)
    (fits : word_pos col minutes ≤ f.size) where
  abbrev base : ℕ
  base = data_start + col_bytes * col

  one_segment :
      first + n ≤ minutes
      → (m : Mem) × (read_col (still f) k first n base ≡ ok m) × Shows f col first n m
  unfolding read_col word
  one_segment h = (
    λ i. f.at (base + first * 4 + i),
    rw (min_is, read_full_ok f (n * 4) (base + first * 4) (omega arith)) (ground arith),
    λ j q. read_move (j * 4) _ 4 _ _ (λ i p. ap f.at (omega arith)),
  )
    where
      min_is : min n (minutes - first) ≡ n
      min_is = omega arith

  two_segments :
      minutes < first + n
      → (m : Mem) × (read_col (still f) k first n base ≡ ok m) × Shows f col first n m
  unfolding read_col word
  two_segments h = (
    λ i. if ltb i (c * 4) then f.at (base + first * 4 + i) else f.at (base + (i - c * 4)),
    rw
        (
          min_is,
          read_full_ok f (c * 4) (base + first * 4) (omega arith),
          read_full_ok f ((n - c) * 4) base (omega arith),
        )
        (ground arith),
    λ j q. elim (dec_lt j c) [
      | yes lt ↦ read_move (j * 4) _ 4 _ _ (λ i p.
          let e : base + first * 4 + (j * 4 + i) ≡ word_pos col ((first + j) % minutes) + i =
            omega arith in
          ground (arith, ap f.at e))
      | no ge ↦ read_move (j * 4) _ 4 _ _ (λ i p.
          let e : base + (j * 4 + i - c * 4) ≡ word_pos col ((first + j) % minutes) + i =
            omega arith in
          ground (arith, ap f.at e))
    ],
  )
    where
      c : ℕ
      c = minutes - first

      min_is : min n (minutes - first) ≡ c
      min_is = omega arith

  -- A column is read whole, from the slot of the first minute on, round its end.
  pub read_col-still :
      (m : Mem) × (read_col (still f) k first n base ≡ ok m) × Shows f col first n m
  read_col-still = elim (dec_lt minutes (first + n)) [
    | yes h ↦ two_segments h
    | no h ↦ one_segment (omega arith)
  ]

module _ {F : Type 0} (fl : Floats F) where
  abbrev pub value_of : File → ℕ → ℤ → F
  value_of f col minute = fl.from32 (get_le (word f col (slot_of minute)))

  -- What a file says of a minute of series `i`: its values, if the slot holds that minute and no
  -- value is a gap.
  unfoldable pub cell_of : File → ℕ → ℤ → Cell fl
  cell_of f i minute =
      let a = value_of f (1 + 3 * i) minute in
      let b = value_of f (2 + 3 * i) minute in
      let c = value_of f (3 + 3 * i) minute in
      if not (get_le (word f 0 (slot_of minute)) == to_word (2 ^ 32) minute)
      then none
      else if fl.is_nan a || fl.is_nan b || fl.is_nan c
      then none
      else some (record { avg = a; low = b; high = c })

  -- `n` minutes of series `i`, minute `from + j` first.
  abbrev pub cells_of : File → ℕ → ℤ → ℕ → ℕ → List (Cell fl)
  cells_of f i from zero j = []
  cells_of f i from (suc n) j = cell_of f i (from +ℤ pos j) ∷ cells_of f i from n (suc j)

  -- The series that are not skipped, series `i` first.
  abbrev pub window_of : File → ℤ → ℕ → List Bytes → ℕ → List Bytes → List (Bytes × List (Cell fl))
  window_of f from n only i [] = []
  window_of f from n only i (k ∷ ks) =
      let rest = window_of f from n only (suc i) ks in
      if skipped only k then rest else (k, cells_of f i from n 0) ∷ rest

  module _ (f : File) (from : ℤ) (n : ℕ) (before after : Mem) where
    abbrev first : ℕ
    first = slot_of from

    word_at_still :
        (col j : ℕ) (m : Mem)
        → j < n
        → Shows f col first n m
        → word_at m j ≡ get_le (word f col (slot_of (from +ℤ pos j)))
    word_at_still col j m h s = ap get_le (s j h ∙ ap (word f col) (sym (slot_of_add from j)))

    cell_at_still :
        (i j : ℕ) (a b c : Mem)
        → j < n
        → Shows f 0 first n before
        → Shows f 0 first n after
        → Shows f (1 + 3 * i) first n a
        → Shows f (2 + 3 * i) first n b
        → Shows f (3 + 3 * i) first n c
        → cell_at fl from before after (a, b, c) j ≡ cell_of f i (from +ℤ pos j)
    unfolding cell_at cell_of
    cell_at_still i j a b c h sb sa s1 s2 s3 = ground (
      arith,
      word_at_still 0 j before h sb,
      word_at_still 0 j after h sa,
      ap fl.from32 (word_at_still (1 + 3 * i) j a h s1),
      ap fl.from32 (word_at_still (2 + 3 * i) j b h s2),
      ap fl.from32 (word_at_still (3 + 3 * i) j c h s3),
    )

    module _ (sb : Shows f 0 first n before) (sa : Shows f 0 first n after) where
      cells_from_still :
          (i k j : ℕ) (a b c : Mem)
          → j + k ≤ n
          → Shows f (1 + 3 * i) first n a
          → Shows f (2 + 3 * i) first n b
          → Shows f (3 + 3 * i) first n c
          → cells_from fl from before after (a, b, c) k j ≡ cells_of f i from k j
      unfolding cells_from
      cells_from_still i zero j a b c h s1 s2 s3 = refl
      cells_from_still i (suc k) j a b c h s1 s2 s3 =
          ap₂ ◌∷◌ (cell_at_still i j a b c (omega arith) sb sa s1 s2 s3)
            (cells_from_still i k (suc j) a b c (omega arith) s1 s2 s3)

      -- The columns of all series are read, and the cells made of them are those of the file.
      pub read_cols-still :
          (only keys : List Bytes) (i : ℕ)
          → n ≤ minutes
          → ring_file_size (i + length keys) ≤ f.size
          → (cols : List (Bytes × Cols)) × (read_cols (still f) first n only i keys ≡ ok cols)
            × (series_cells fl from before after n cols ≡ window_of f from n only i keys)
      unfolding read_cols
      read_cols-still only [] i hn fits = ([], refl, refl)
      read_cols-still only (k ∷ ks) i hn fits =
          let lt = slot_of-lt from in
          let (cols, p, q) = read_cols-still only ks (suc i) hn (omega arith) in
          let (a, ra, s1) = read_col-still f (1 + 3 * i) first n (1 + 3 * i) lt hn (omega arith) in
          let (b, rb, s2) = read_col-still f (2 + 3 * i) first n (2 + 3 * i) lt hn (omega arith) in
          let (c, rc, s3) = read_col-still f (3 + 3 * i) first n (3 + 3 * i) lt hn (omega arith) in
          elim (Bool-cases (skipped only k)) [
            | inl e ↦ (cols, rw e p, rw e q)
            | inr e ↦ (
              (k, (a, b, c)) ∷ cols,
              rw (
                e,
                at 0 (1 + 3 * i) a (omega arith) ra,
                at 1 (2 + 3 * i) b (omega arith) rb,
                at 2 (3 + 3 * i) c (omega arith) rc,
                p,
              ),
              rw e (
                  ap₂ ◌∷◌ (ap (λ x. (k, x)) (cells_from_still i n 0 a b c (omega arith) s1 s2 s3))
                    q),
            )
          ]
        where
          at :
              (c col : ℕ) (m : Mem)
              → data_start + col_bytes * (1 + 3 * i + c) ≡ data_start + col_bytes * col
              → read_col (still f) col first n (data_start + col_bytes * col) ≡ ok m
              → read_col (still f) col first n (col_off i c) ≡ ok m
          at c col m e r = ap (read_col (still f) col first n) e ∙ r
