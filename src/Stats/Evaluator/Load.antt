-- ===== src/Stats/Evaluator/Load.antt =====
-- `newEvaluator` and `load` of pkg/stats/evaluator.go. What json.Unmarshal gives of the file, and
-- which calls of the file system fail, are parameters. Any error of load has the same effect.
use casa_os_common.Common.{
  ℕ, Bool, true, false, not, ◌||◌, Option, none, some, List, [], ◌∷◌, if◌then◌else◌, Bytes,
}
use casa_os_common.Common.Int.{ℤ, pos, negsuc, ltb_ℤ, eq_ℤ}
use casa_os_common.Common.Map.{Map}
use casa_os_common.Stats.Errors.{Err}
use casa_os_common.Stats.Floats.{Floats}
use casa_os_common.Stats.Rules.{Rule, rule_keys, contains, validate_rules}
use casa_os_common.Stats.Evaluator.Item.{Alert, ItemState, is_idle, max_run}
use casa_os_common.Stats.Evaluator.Machine.{Evaluator}

-- `itemState` as it is in the file: a run may be any number.
pub record FileItem (F : Type 0) : Type 0 where
  pub rules : List (Rule F)
  pub active : List (Alert F)
  pub runs : Map ℤ
  pub last : ℤ

-- `stateFile`; an item is none where the file has null.
pub record StateFile (F : Type 0) : Type 0 where
  pub version : ℤ
  pub items : Map (Option (FileItem F))

abbrev pub state_version : ℤ
state_version = pos 1

module _ {F : Type 0} where
  -- The loop over the alerts; `seen` are the keys of the alerts before, the nearest first.
  unfoldable pub alerts_fit : List Bytes → List (Alert F) → Bool
  alerts_fit seen [] = true
  alerts_fit seen (a ∷ l) =
      let rest = alerts_fit (a.key ∷ seen) l in
      if not (contains rule_keys a.key) || contains seen a.key then false else rest

-- A run from 0 to maxRun, as a natural number.
abbrev pub run_in_range : ℤ → Option ℕ
run_in_range (negsuc n) = none
run_in_range (pos n) = if ltb_ℤ (pos max_run) (pos n) then none else some n

-- The loop over the runs: none where one has an unknown key or is out of range.
unfoldable pub checked_runs : Map ℤ → Option (Map ℕ)
checked_runs [] = some []
checked_runs ((k, n) ∷ m) =
    add_run (if not (contains rule_keys k) then none else run_in_range n) (checked_runs m)
  where
    add_run : Option ℕ → Option (Map ℕ) → Option (Map ℕ)
    add_run none rest = none
    add_run (some n) none = none
    add_run (some n) (some rest) = some ((k, n) ∷ rest)

module _ {F : Type 0} (fl : Floats F) where
  -- One turn of the loop over the items, but for the test of an idle one.
  abbrev pub with_runs : FileItem F → Option (Map ℕ) → Option (ItemState F)
  with_runs st none = none
  with_runs st (some runs) =
      some (record { rules = st.rules; active = st.active; runs = runs; last = st.last })

  unfoldable pub load_item : FileItem F → Option (ItemState F)
  load_item st = elim (validate_rules fl st.rules) [
    | some e ↦ none
    | none ↦ if not (alerts_fit [] st.active) then none else with_runs st (checked_runs st.runs)
  ]

  -- An item in front of the others; an idle one is dropped.
  abbrev pub add_item :
      Bytes → Option (ItemState F) → Option (Map (ItemState F)) → Option (Map (ItemState F))
  add_item name none rest = none
  add_item name (some st) none = none
  add_item name (some st) (some rest) = some (if is_idle st then rest else (name, st) ∷ rest)

  abbrev pub load_some : Option (FileItem F) → Option (ItemState F)
  load_some none = none
  load_some (some st) = load_item st

  unfoldable pub load_items : Map (Option (FileItem F)) → Option (Map (ItemState F))
  load_items [] = some []
  load_items ((name, o) ∷ m) = add_item name (load_some o) (load_items m)

  -- `load`, with what json.Unmarshal gives: the items, or an error
  abbrev pub load : Option (StateFile F) → Option (Map (ItemState F))
  load none = none
  load (some sf) = if not (eq_ℤ sf.version state_version) then none else load_items sf.items

  -- What `readFile` gives.
  pub data FileRead : Type 0 where
    absent unreadable : FileRead
    holds : Bytes → FileRead

  abbrev pub defaults : Evaluator F
  defaults = record { items = []; saved = []; save_err = none }

  -- By what load gives: the evaluator, and whether the file is moved to alerts.json.bad.
  abbrev pub loaded : Bytes → Option (Map (ItemState F)) → Evaluator F × Bool
  loaded b none = (defaults, true)
  loaded b (some items) = (record { items = items; saved = b; save_err = none }, false)

  abbrev pub from_file : (Bytes → Option (StateFile F)) → FileRead → Evaluator F × Bool
  from_file unmarshal absent = (defaults, false)
  from_file unmarshal unreadable = (defaults, true)
  from_file unmarshal (holds b) = loaded b (load (unmarshal b))

  -- `newEvaluator`: none where the directory cannot be made
  unfoldable pub new_evaluator :
      (Bytes → Option (StateFile F)) → Option Err → FileRead → Option (Evaluator F × Bool)
  new_evaluator unmarshal (some e) file = none
  new_evaluator unmarshal none file = some (from_file unmarshal file)
