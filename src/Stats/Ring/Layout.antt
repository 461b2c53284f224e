-- ===== src/Stats/Ring/Layout.antt =====
-- Where things lie in a ring file: `ringFileSize`, `colOff` and `slotOf` of pkg/stats/ring.go.
use native.Mathlib.Decide.{dec_le}
use casa_os_common.Common.{ℕ, suc, ◌+◌, ◌-◌, ◌*◌, ◌%◌, ◌<◌, ◌≡◌, ap, ◌∙◌, ◌≢◌, arith}
use casa_os_common.Common.Int.{ℤ, pos, negsuc, ◌+ℤ◌, pos_part, rem}
use casa_os_common.Stats.Limits.{minutes, data_start, col_bytes}

abbrev pub ring_file_size : ℕ → ℕ
ring_file_size nseries = data_start + col_bytes * (1 + 3 * nseries)

abbrev pub col_off : ℕ → ℕ → ℕ
col_off i c = data_start + col_bytes * (1 + 3 * i + c)

-- `((minute % Minutes) + Minutes) % Minutes`, whose outer remainder is of a positive number.
unfoldable pub slot_of : ℤ → ℕ
slot_of minute = pos_part (rem minute minutes +ℤ pos minutes) % minutes

pub slot_of-lt : (m : ℤ) → slot_of m < minutes
unfolding slot_of
slot_of-lt m = omega arith

pub slot_of_pos : (m : ℕ) → slot_of (pos m) ≡ m % minutes
unfolding slot_of ◌+ℤ◌
slot_of_pos m = ground arith

pub slot_of_negsuc : (m : ℕ) → slot_of (negsuc m) ≡ (minutes - suc m % minutes) % minutes
unfolding slot_of ◌+ℤ◌
slot_of_negsuc m = ground arith

-- The minutes that follow go round the column.
pub slot_of_add : (m : ℤ) (j : ℕ) → slot_of (m +ℤ pos j) ≡ (slot_of m + j) % minutes
unfolding ◌+ℤ◌
slot_of_add (pos m) j =
    ap slot_of (ground arith) ∙ slot_of_pos (m + j) ∙ omega (arith, slot_of_pos m)
slot_of_add (negsuc m) j = elim (dec_le (suc m) j) [
  | yes h ↦ ap slot_of (ground arith) ∙ slot_of_pos (j - suc m) ∙ omega (arith, slot_of_negsuc m)
  | no h ↦ ap slot_of (ground arith) ∙ slot_of_negsuc (m - j) ∙ omega (arith, slot_of_negsuc m)
]

-- Two different minutes of one window have different slots.
pub slot_of-ne :
    (m : ℤ) (j k : ℕ)
    → j < minutes
    → k < minutes
    → j ≢ k
    → slot_of (m +ℤ pos j) ≢ slot_of (m +ℤ pos k)
slot_of-ne m j k hj hk ne = omega (arith, slot_of_add m j, slot_of_add m k, slot_of-lt m)
