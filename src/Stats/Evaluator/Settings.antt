-- ===== src/Stats/Evaluator/Settings.antt =====
-- `Rebuild` and `SetRules` of pkg/stats/evaluator.go, under the lock; `none` stands for a panic.
-- `valid_utf8` is `utf8.ValidString`.
use casa_os_common.Common.{
  Bool, true, false, not, ◌&&◌, Option, none, some, List, [], ◌∷◌, if◌then◌else◌, Bytes, eq_bytes,
}
use casa_os_common.Common.Int.{ℤ, eq_ℤ}
use casa_os_common.Common.Map
use casa_os_common.Common.Map.{Map}
use casa_os_common.Stats.Errors.{Err, Result}
use casa_os_common.Stats.Floats.{Floats}
use casa_os_common.Stats.Rules.{Rule, RuleError, default_rules, validate_rules}
use casa_os_common.Stats.Evaluator.Item.{Event, ItemState}
use casa_os_common.Stats.Evaluator.Machine.{Evaluator, state_of, rules_of, override_all, put_item}
use casa_os_common.Stats.Evaluator.Reconcile.{History, reconcile_item}

pub data SetError : Type 0 where
  item_error : SetError
  rules_error : RuleError → SetError

module _ {F : Type 0} (fl : Floats F) where
  abbrev pub eq_bool : Bool → Bool → Bool
  eq_bool true b = b
  eq_bool false b = not b

  -- `==` of two rules
  abbrev pub eq_rule : Rule F → Rule F → Bool
  eq_rule a b =
      eq_bytes a.key b.key
      && eq_bool a.enabled b.enabled
      && (fl.le a.threshold b.threshold && fl.le b.threshold a.threshold)
      && eq_ℤ a.minutes b.minutes

  -- `slices.Equal`
  unfoldable pub eq_rules : List (Rule F) → List (Rule F) → Bool
  eq_rules [] [] = true
  eq_rules (a ∷ l) (b ∷ m) = eq_rule a b && eq_rules l m
  eq_rules _ _ = false

module _ {F : Type 0} (fl : Floats F) (marshal : Map (ItemState F) → Result Bytes)
    (write : Bytes → Option Err) where
  -- `reconcile`
  unfoldable pub reconcile :
      Bytes
      → ℤ
      → Result (ℤ × History fl)
      → ItemState F
      → Evaluator F
      → Option (Evaluator F × List (Event F))
  unfolding rules_of reconcile_item put_item
  reconcile item now recent st e = elim (rules_of fl item e) [
    | none ↦ none
    | some rules ↦ some (
        let (st', evs) = reconcile_item fl item now recent rules st in
        (put_item fl marshal write item st' e, evs))
  ]

  unfoldable pub rebuild :
      Bytes → ℤ → Result (ℤ × History fl) → Evaluator F → Option (Evaluator F × List (Event F))
  unfolding reconcile
  rebuild item now recent e = reconcile item now recent (state_of item e) e

  -- The function that `SetRules` passes to `do`, for valid rules.
  unfoldable pub replace_rules :
      Bytes
      → List (Rule F)
      → ℤ
      → Result (ℤ × History fl)
      → Evaluator F
      → Option (Evaluator F × List (Event F))
  unfolding rules_of override_all eq_rules reconcile
  replace_rules item rules now recent e = elim (rules_of fl item e) [
    | none ↦ none
    | some old ↦ elim (override_all rules old) [
      | none ↦ none
      | some merged ↦
          (let st = state_of item e in
            let kept = if eq_rules fl merged (default_rules fl) then [] else merged in
            let st' = record st { rules = kept } in
            reconcile item now recent st' (record e { items = Map.put item st' e.items }))
    ]
  ]

  -- `SetRules`: the error, and what becomes of the evaluator.
  unfoldable pub set_rules :
      (Bytes → Bool)
      → Bytes
      → List (Rule F)
      → ℤ
      → Result (ℤ × History fl)
      → Evaluator F
      → Option (Evaluator F × List (Event F) × Option SetError)
  unfolding replace_rules
  set_rules valid_utf8 item rules now recent e =
      if not (valid_utf8 item)
      then some (e, [], some item_error)
      else elim (validate_rules fl rules) [
        | some x ↦ some (e, [], some (rules_error x))
        | none ↦ elim (replace_rules item rules now recent e) [
          | none ↦ none
          | some p ↦ some (p.0, p.1, none)
        ]
      ]
