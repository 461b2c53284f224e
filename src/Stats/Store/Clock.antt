-- ===== src/Stats/Store/Clock.antt =====
-- `time.Time` as nanoseconds since 1970, and what the store computes with times.
use casa_os_common.Common.{ℕ, ◌/◌, ◌*◌, Bool}
use casa_os_common.Common.Int.{ℤ, pos, negsuc, ◌-ℤ◌, ltb_ℤ, leb_ℤ}

abbrev pub Time : Type 0
Time = ℤ

abbrev pub second : ℕ
second = 1000000000

-- `t.Unix()`: rounded down, for times before 1970 too
unfoldable pub unix : Time → ℤ
unix (pos n) = pos (n / second)
unix (negsuc n) = negsuc (n / second)

-- `a.Before(b)`
abbrev pub before : Time → Time → Bool
before a b = ltb_ℤ a b

-- `last.Sub(at) <= time.Minute`
unfoldable pub within_minute : Time → Time → Bool
within_minute last at = leb_ℤ (last -ℤ at) (pos (60 * second))
