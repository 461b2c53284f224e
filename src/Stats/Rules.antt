-- ===== src/Stats/Rules.antt =====
-- The alert rules: pkg/stats/rules.go.
pub mod Valid
use casa_os_common.Common.{
  ℕ, suc, Bool, true, false, not, ◌||◌, ◌&&◌, Option, none, some, List, [], ◌∷◌, ◌++◌,
  if◌then◌else◌, Bytes, codes, eq_bytes,
}
use casa_os_common.Common.Int.{ℤ, pos, ltb_ℤ}
use casa_os_common.Stats.Floats.{Floats}

pub record Rule (F : Type 0) : Type 0 where
  pub key : Bytes
  pub enabled : Bool
  pub threshold : F
  pub minutes : ℤ

abbrev pub cpu_high : Bytes
cpu_high = codes "cpu_high"

abbrev pub mem_high : Bytes
mem_high = codes "mem_high"

abbrev pub rule_keys : List Bytes
rule_keys = cpu_high ∷ mem_high ∷ []

-- `slices.Contains`
unfoldable pub contains : List Bytes → Bytes → Bool
contains [] k = false
contains (x ∷ xs) k = eq_bytes x k || contains xs k

-- The faulty field of a rule; the text of the message follows from it.
pub data Fault : Type 0 where
  unknown_key duplicate bad_threshold bad_minutes : Fault

pub record RuleError : Type 0 where
  pub index : ℕ
  pub fault : Fault

module _ {F : Type 0} (fl : Floats F) where
  -- `DefaultRules`
  abbrev pub default_rules : List (Rule F)
  default_rules =
      record { key = cpu_high; enabled = true; threshold = fl.of_ℕ 90; minutes = pos 10 }
      ∷ record { key = mem_high; enabled = true; threshold = fl.of_ℕ 90; minutes = pos 5 }
      ∷ []

  -- The `switch` over one rule; `seen` are the keys of the rules before it.
  unfoldable pub rule_fault : List Bytes → Rule F → Option Fault
  unfolding contains
  rule_fault seen r =
      if not (contains rule_keys r.key)
      then some unknown_key
      else if contains seen r.key
      then some duplicate
      else if not (fl.le (fl.of_ℕ 1) r.threshold && fl.le r.threshold (fl.of_ℕ 100))
      then some bad_threshold
      else if ltb_ℤ r.minutes (pos 1) || ltb_ℤ (pos 120) r.minutes
      then some bad_minutes
      else none

  -- The loop from rule `i` on.
  unfoldable pub validate_from : ℕ → List Bytes → List (Rule F) → Option RuleError
  unfolding rule_fault
  validate_from i seen [] = none
  validate_from i seen (r ∷ rs) =
      let rest = validate_from (suc i) (seen ++ r.key ∷ []) rs in
      elim (rule_fault seen r) [ some f ↦ some (record { index = i; fault = f }) | none ↦ rest ]

  unfoldable pub validate_rules : List (Rule F) → Option RuleError
  unfolding validate_from
  validate_rules rules = validate_from 0 [] rules
