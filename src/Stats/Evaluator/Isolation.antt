-- ===== src/Stats/Evaluator/Isolation.antt =====
-- `onMinute` of pkg/stats/evaluator.go changes the item of the minute alone.
use casa_os_common.Common.{
  ◌≡◌, arith, Option, some, List, [], ◌∷◌, if◌then◌else◌, inl, inr, Option-cases, Bytes, eq_bytes,
  eq_bytes_iff,
}
use casa_os_common.Common.Int.{ℤ}
use casa_os_common.Common.Map.{Map}
use casa_os_common.Stats.Errors.{Err, Result}
use casa_os_common.Stats.Floats.{Floats}
use casa_os_common.Stats.Rules.{Rule}
use casa_os_common.Stats.Evaluator.Item.{Event, ItemState, on_minute_item}
use casa_os_common.Stats.Evaluator.Machine.{Evaluator, state_of, rules_of, put_item, on_minute}
use casa_os_common.Stats.Evaluator.History.{next_state}
use casa_os_common.Stats.Evaluator.Put.{state_of-put_item}

module _ {F : Type 0} (fl : Floats F) (marshal : Map (ItemState F) → Result Bytes)
    (write : Bytes → Option Err) where
  -- Where the rules in force are two, `onMinute` does not panic. Afterwards the item of the minute is
  -- in the state that judging the minute gives, and every other item in the state it was in, whatever
  -- becomes of the file.
  pub on_minute-state_of :
      (item : Bytes) (m : ℤ) (vals : Bytes → Option F) (c d : Rule F) (e : Evaluator F)
      → rules_of fl item e ≡ some (c ∷ d ∷ [])
      → (p : Evaluator F × List (Event F)) × (on_minute fl marshal write item m vals e ≡ some p)
        × ((j : Bytes)
            → state_of j p.0 ≡ (
                if eq_bytes item j
                then next_state fl item c d m vals (state_of item e)
                else state_of j e))
  unfolding on_minute next_state
  on_minute-state_of item m vals c d e two =
      elim (Option-cases (on_minute_item fl item m vals (c ∷ d ∷ []) (state_of item e))) [
        | inl h ↦ ((e, []), ground (arith, two, h), λ j. ground (arith, h, eq_bytes_iff item j))
        | inr (p, h) ↦ (
          (put_item fl marshal write item p.0 e, p.1),
          ground (arith, two, h),
          λ j. ground (arith, h, state_of-put_item fl marshal write item j p.0 e),
        )
      ]
