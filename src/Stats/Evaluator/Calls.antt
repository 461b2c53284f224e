-- ===== src/Stats/Evaluator/Calls.antt =====
-- An evaluator from its file through any sequence of calls (pkg/stats/evaluator.go).
use casa_os_common.Common.{
  ◌≡◌, refl, ap, arith, Bool, true, false, not, Option, none, some, List, [], ◌∷◌, ◌++◌,
  if◌then◌else◌, Bytes,
}
use mathlib.Core.Path.{subst}
use casa_os_common.Common.Int.{ℤ}
use casa_os_common.Common.Map
use casa_os_common.Common.Map.{Map}
use casa_os_common.Stats.Errors.{Err, Result}
use casa_os_common.Stats.Floats.{Floats}
use casa_os_common.Stats.Rules.{rule_keys, Rule, RuleError, validate_rules}
use casa_os_common.Stats.Rules.Valid.{validate_rules-AllValid}
use casa_os_common.Stats.Evaluator.Item.{Event, ItemState}
use casa_os_common.Stats.Evaluator.Machine.{
  read_values, on_values, on_minute_read, Evaluator, state_of, resolve, prune,
}
use casa_os_common.Stats.Evaluator.Reconcile.{History}
use casa_os_common.Stats.Evaluator.Settings.{
  SetError, item_error, rules_error, rebuild, replace_rules, set_rules,
}
use casa_os_common.Stats.Evaluator.Invariant.{IsWell, on_minute-IsWell}
use casa_os_common.Stats.Evaluator.Sound.{AllValid-AllKnown}
use casa_os_common.Stats.Evaluator.Kept.{
  Goes, reconcile-Goes, replace_rules-Goes, resolve-IsWell, prune-IsWell,
}
use casa_os_common.Stats.Evaluator.Load.{StateFile, FileRead, from_file, new_evaluator}
use casa_os_common.Stats.Evaluator.Loaded.{from_file-IsWell}

module _ {F : Type 0} (fl : Floats F) (valid_utf8 : Bytes → Bool)
    (marshal : Map (ItemState F) → Result Bytes) (write : Bytes → Option Err) where
  -- A call of OnMinute, SetRules, Rebuild, Resolve or Prune, with what the store answers to it.
  pub data Call : Type 0 where
    minute : Bytes → ℤ → (Bytes → Result (Option F)) → Call
    setting : Bytes → List (Rule F) → ℤ → Result (ℤ × History fl) → Call
    rebuilding : Bytes → ℤ → Result (ℤ × History fl) → Call
    resolving : Bytes → Call
    pruning : List Bytes → Call

  abbrev without_error :
      Option (Evaluator F × List (Event F) × Option SetError)
      → Option (Evaluator F × List (Event F))
  without_error none = none
  without_error (some (e, evs, x)) = some (e, evs)

  -- What becomes of the evaluator, and the events; none stands for a panic.
  abbrev pub run_call : Call → Evaluator F → Option (Evaluator F × List (Event F))
  run_call (minute item m read) e = on_minute_read fl marshal write item m read e
  run_call (setting item rules now recent) e =
      without_error (set_rules fl marshal write valid_utf8 item rules now recent e)
  run_call (rebuilding item now recent) e = rebuild fl marshal write item now recent e
  run_call (resolving item) e = some (resolve fl marshal write item e)
  run_call (pruning keep) e = some (prune fl marshal write keep e, [])

  abbrev run_rest :
      Option (Evaluator F × List (Event F))
      → (Evaluator F → Option (Evaluator F × List (Event F)))
      → Option (Evaluator F × List (Event F))
  run_rest none rest = none
  run_rest (some (e, evs)) rest = add_events evs (rest e)
    where
      add_events :
          List (Event F)
          → Option (Evaluator F × List (Event F))
          → Option (Evaluator F × List (Event F))
      add_events evs none = none
      add_events evs (some (e, more)) = some (e, evs ++ more)

  -- The calls one after the other, with all their events.
  unfoldable pub run_calls : List Call → Evaluator F → Option (Evaluator F × List (Event F))
  run_calls [] e = some (e, [])
  run_calls (c ∷ cs) e = run_rest (run_call c e) (run_calls cs)

  abbrev IsSafe : Option (Evaluator F × List (Event F)) → Type 0
  IsSafe o = Goes fl marshal write o

  -- SetRules by its two tests.
  set_rules-IsSafe :
      (item : Bytes) (rules : List (Rule F)) (now : ℤ) (recent : Result (ℤ × History fl))
      (e : Evaluator F) (b : Bool) (v : Option RuleError)
      (o : Option (Evaluator F × List (Event F)))
      → IsWell e
      → (v ≡ none → IsSafe o)
      → IsSafe (
          without_error (
            if not b then some (e, [], some item_error) else elim v [
              | some x ↦ some (e, [], some (rules_error x))
              | none ↦ elim o [ none ↦ none | some p ↦ some (p.0, p.1, none) ]
            ]))
  set_rules-IsSafe item rules now recent e false v o w s = ((e, []), refl, w)
  set_rules-IsSafe item rules now recent e true (some x) o w s = ((e, []), refl, w)
  set_rules-IsSafe item rules now recent e true none o w s = replaced o (s refl)
    where
      replaced :
          (o : Option (Evaluator F × List (Event F)))
          → IsSafe o
          → IsSafe (without_error (elim o [ none ↦ none | some p ↦ some (p.0, p.1, none) ]))
      replaced none (p, q, r) = absurd (ground arith)
      replaced (some p) s = s

  on_values-IsSafe :
      (item : Bytes) (m : ℤ) (o : Option (Map F)) (e : Evaluator F)
      → IsWell e
      → IsSafe (on_values fl marshal write item m o e)
  on_values-IsSafe item m none e w = ((e, []), refl, w)
  on_values-IsSafe item m (some vals) e w =
      on_minute-IsWell fl marshal write item m (λ k. Map.get k vals) e w

  run_call-IsSafe : (c : Call) (e : Evaluator F) → IsWell e → IsSafe (run_call c e)
  unfolding set_rules rebuild on_minute_read
  run_call-IsSafe (minute item m read) e w =
      on_values-IsSafe item m (read_values fl marshal write read [] rule_keys) e w
  run_call-IsSafe (setting item rules now recent) e w =
      set_rules-IsSafe item rules now recent e (valid_utf8 item) (validate_rules fl rules)
        (replace_rules fl marshal write item rules now recent e) w
        (λ v.
          replace_rules-Goes fl marshal write item rules now recent e w
            (AllValid-AllKnown fl [] rules ((validate_rules-AllValid fl rules).0 v)))
  run_call-IsSafe (rebuilding item now recent) e w =
      reconcile-Goes fl marshal write item now recent (state_of item e) e w (w.sound item)
  run_call-IsSafe (resolving item) e w =
      (resolve fl marshal write item e, refl, resolve-IsWell fl marshal write item e w)
  run_call-IsSafe (pruning keep) e w =
      ((prune fl marshal write keep e, []), refl, prune-IsWell fl marshal write keep e w)

  run_rest-IsSafe :
      (o : Option (Evaluator F × List (Event F)))
      (rest : Evaluator F → Option (Evaluator F × List (Event F)))
      → IsSafe o
      → ((e : Evaluator F) → IsWell e → IsSafe (rest e))
      → IsSafe (run_rest o rest)
  run_rest-IsSafe none rest (p, q, r) s = absurd (ground arith)
  run_rest-IsSafe (some (e, evs)) rest (p, q, r) s =
      let w : IsWell e = subst (λ x. IsWell x.0) (let g : p ≡ (e, evs) = cc in g) r in
      let (p', q', r') = s e w in
      ((p'.0, evs ++ p'.1), ap (λ o. run_rest (some (e, evs)) (λ x. o)) q', r')

  run_calls-IsSafe : (cs : List Call) (e : Evaluator F) → IsWell e → IsSafe (run_calls cs e)
  unfolding run_calls
  run_calls-IsSafe [] e w = ((e, []), refl, w)
  run_calls-IsSafe (c ∷ cs) e w =
      run_rest-IsSafe (run_call c e) (run_calls cs) (run_call-IsSafe c e w) (run_calls-IsSafe cs)

  -- Whatever the file alerts.json holds, and whatever the store, the clock and the writes of the file
  -- answer: where NewEvaluator returns an evaluator, any sequence of calls of OnMinute, SetRules,
  -- Rebuild, Resolve and Prune runs without a panic; and the state behind it has known keys in
  -- the rules of every item, and no item with two alerts of a key.
  pub new_evaluator-IsSafe :
      (unmarshal : Bytes → Option (StateFile F)) (mkdir : Option Err) (file : FileRead fl)
      (e : Evaluator F) (moved : Bool) (cs : List Call)
      → new_evaluator fl unmarshal mkdir file ≡ some (e, moved)
      → (q : Evaluator F × List (Event F)) × (run_calls cs e ≡ some q) × IsWell q.0
  unfolding new_evaluator
  new_evaluator-IsSafe unmarshal (some x) file e moved cs h = absurd (ground arith)
  new_evaluator-IsSafe unmarshal none file e moved cs h =
      let g : from_file fl unmarshal file ≡ (e, moved) = cc in
      run_calls-IsSafe cs e (subst (λ p. IsWell p.0) g (from_file-IsWell fl unmarshal file))
