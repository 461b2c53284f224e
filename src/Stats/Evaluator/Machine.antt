-- ===== src/Stats/Evaluator/Machine.antt =====
-- The state of an `Evaluator` of pkg/stats/evaluator.go and its operations under the lock. An outcome
-- `none` stands for a panic: the index -1 where a rule has none of the known keys.
-- The file `alerts.json` is seen through two parameters: `marshal` is `json.Marshal` of the state, and
-- `write` the outcome of `writeFileAtomic` on a content.
use casa_os_common.Common.{
  ◌++◌, codes, Option, none, some, List, [], ◌∷◌, map, if◌then◌else◌, Bytes, eq_bytes,
}
use casa_os_common.Common.Int.{ℤ, pos}
use casa_os_common.Common.Map
use casa_os_common.Common.Map.{Map}
use casa_os_common.Stats.Errors.{Err, Result, ok, err}
use casa_os_common.Stats.Floats.{Floats}
use casa_os_common.Stats.Rules.{rule_keys, Rule, default_rules, contains}
use casa_os_common.Stats.Evaluator.Item.{
  Event, Alert, ItemState, firing, resolved, fresh, is_empty, is_idle, on_minute_item,
}

-- `Evaluator`: `saved` is the content of the file on disk. The fields `pending` and `draining` are in
-- Stats.Evaluator.Queue.
pub record Evaluator (F : Type 0) : Type 0 where
  pub items : Map (ItemState F)
  pub saved : Bytes
  pub save_err : Option Err

module _ {F : Type 0} where
  -- `out[slices.IndexFunc(out, …)] = r`
  unfoldable pub override : Rule F → List (Rule F) → Option (List (Rule F))
  override r [] = none
  override r (d ∷ ds) =
      let rest = override r ds in
      if eq_bytes d.key r.key
      then some (r ∷ ds)
      else elim rest [ none ↦ none | some l ↦ some (d ∷ l) ]

  unfoldable pub override_all : List (Rule F) → List (Rule F) → Option (List (Rule F))
  unfolding override
  override_all [] out = some out
  override_all (r ∷ rs) out = elim (override r out) [ none ↦ none | some l ↦ override_all rs l ]

  -- The first lines of `put`: without a run, `Last` is 0.
  unfoldable pub settle : ItemState F → ItemState F
  settle st = if is_empty st.runs then record st { runs = []; last = pos 0 } else st

  -- `state`
  abbrev pub state_of : Bytes → Evaluator F → ItemState F
  state_of item e = elim (Map.get item e.items) [ none ↦ fresh | some st ↦ st ]

module _ {F : Type 0} (fl : Floats F) where
  -- `rules`
  unfoldable pub rules_of : Bytes → Evaluator F → Option (List (Rule F))
  unfolding override_all
  rules_of item e = override_all (state_of item e).rules (default_rules fl)

module _ {F : Type 0} (fl : Floats F) (marshal : Map (ItemState F) → Result Bytes)
    (write : Bytes → Option Err) where
  unfoldable pub save : Evaluator F → Evaluator F
  save e = elim (marshal e.items) [
    | err x ↦ record e { save_err = some x }
    | ok b ↦
        (if eq_bytes b e.saved then record e { save_err = none } else elim (write b) [
          | none ↦ record e { saved = b; save_err = none }
          | some x ↦ record e { save_err = some x }
        ])
  ]

  -- `put`
  unfoldable pub put_item : Bytes → ItemState F → Evaluator F → Evaluator F
  unfolding save settle is_idle
  put_item item st e =
      let st' = settle st in
      save (record e {
        items = if is_idle st' then Map.del item e.items else Map.put item st' e.items;
      })

  -- The event of an alert that `Resolve` ends.
  abbrev pub ended : Bytes → Alert F → Event F
  ended item a = record {
    item = item;
    key = a.key;
    state = resolved;
    value = fl.of_ℕ 0;
    since = a.since;
  }

  -- `Resolve`, under the lock
  unfoldable pub resolve : Bytes → Evaluator F → Evaluator F × List (Event F)
  unfolding put_item
  resolve item e = elim (Map.get item e.items) [
    | none ↦ (e, [])
    | some st ↦ (put_item item (record st { active = []; runs = [] }) e, map (ended item) st.active)
  ]

  -- `Active`
  abbrev pub active_of : Bytes → Evaluator F → List (Event F)
  active_of item e =
      map
        (λ a. record { item = item; key = a.key; state = firing; value = a.value; since = a.since })
        (state_of item e).active

  -- `onMinute`
  unfoldable pub on_minute :
      Bytes → ℤ → (Bytes → Option F) → Evaluator F → Option (Evaluator F × List (Event F))
  unfolding rules_of put_item on_minute_item
  on_minute item m vals e = elim (rules_of fl item e) [
    | none ↦ none
    | some rules ↦ some (elim (on_minute_item fl item m vals rules (state_of item e)) [
      | none ↦ (e, [])
      | some p ↦ (put_item item p.0 e, p.1)
    ])
  ]

  -- The loop of `OnMinute` over the keys: the values so far, none where a series cannot be read. `read`
  -- is `minuteValue` of the store for the item and the minute.
  unfoldable pub read_values : (Bytes → Result (Option F)) → Map F → List Bytes → Option (Map F)
  read_values read vals [] = some vals
  read_values read vals (k ∷ ks) =
      by_value vals k (read (codes "alert/" ++ k)) (λ m. read_values read m ks)
    where
      by_value : Map F → Bytes → Result (Option F) → (Map F → Option (Map F)) → Option (Map F)
      by_value vals k (err x) rest = none
      by_value vals k (ok none) rest = rest vals
      by_value vals k (ok (some v)) rest = rest (Map.put k v vals)

  abbrev pub on_values :
      Bytes → ℤ → Option (Map F) → Evaluator F → Option (Evaluator F × List (Event F))
  on_values item m none e = some (e, [])
  on_values item m (some vals) e = on_minute item m (λ k. Map.get k vals) e

  -- `OnMinute`
  unfoldable pub on_minute_read :
      Bytes → ℤ → (Bytes → Result (Option F)) → Evaluator F → Option (Evaluator F × List (Event F))
  on_minute_read item m read e = on_values item m (read_values read [] rule_keys) e

  -- `Prune`, for the names that the store holds
  abbrev pub kept_items : List Bytes → Map (ItemState F) → Map (ItemState F)
  kept_items keep [] = []
  kept_items keep ((k, st) ∷ m) =
      let rest = kept_items keep m in if contains keep k then (k, st) ∷ rest else rest

  unfoldable pub prune : List Bytes → Evaluator F → Evaluator F
  unfolding save
  prune keep e = save (record e { items = kept_items keep e.items })
