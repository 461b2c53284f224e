-- ===== src/Stats/Store/Rings.antt =====
-- What the store uses of a ring: the methods of `ring` in pkg/stats/ring.go as an interface, with the
-- laws that the proofs of the store rest on.
use casa_os_common.Common.{ℕ, ◌≡◌, ◌≢◌, Option, List, Bytes}
use casa_os_common.Common.Int.{ℤ}
use casa_os_common.Stats.Errors.{Err, Result, ok, err, cause, gone}
use casa_os_common.Stats.Ring.Write.{MinuteValue}

-- A method returns its result beside the new ring, on an error too.
pub record Rings (F R : Type 0) : Type 0 where
  pub forgotten_at : R → ℤ
  pub series : R → List Bytes
  pub set_forgotten : ℤ → R → Result (Unit {0}) × R
  pub add_series : Bytes → R → Result ℕ × R
  pub write_minute : ℤ → (ℕ → Option (MinuteValue F)) → R → Result (Unit {0}) × R
  pub newest_minute : R → Result ℕ
  pub close : R → Result (Unit {0}) × R
  -- A failed write of the header leaves the mark in memory as it was.
  pub forgotten-set_forgotten :
      (t : ℤ) (r : R) → (set_forgotten t r).0 ≡ ok tt → forgotten_at (set_forgotten t r).1 ≡ t
  pub forgotten-set_forgotten_err :
      (t : ℤ) (r : R) (e : Err)
      → (set_forgotten t r).0 ≡ err e
      → forgotten_at (set_forgotten t r).1 ≡ forgotten_at r
  pub forgotten-add_series : (k : Bytes) (r : R) → forgotten_at (add_series k r).1 ≡ forgotten_at r
  pub forgotten-write_minute :
      (m : ℤ) (vals : ℕ → Option (MinuteValue F)) (r : R)
      → forgotten_at (write_minute m vals r).1 ≡ forgotten_at r
  pub forgotten-close : (r : R) → forgotten_at (close r).1 ≡ forgotten_at r
  -- A ring knows nothing of removed entries.
  pub set_forgotten-not_gone : (t : ℤ) (r : R) → (set_forgotten t r).0 ≢ err (cause gone)
