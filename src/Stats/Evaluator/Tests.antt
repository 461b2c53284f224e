-- ===== src/Stats/Evaluator/Tests.antt =====
-- Runs of the alert rules and of the evaluator (pkg/stats/rules.go and evaluator.go), and uses of their
-- theorems at concrete inputs.
use casa_os_common.Common.{
  ◌+◌, not, ◌&&◌, ℕ, ◌≡◌, refl, ◌≢◌, inl, arith, true, Option, none, some, List, [], ◌∷◌, ◌++◌,
  if◌then◌else◌, Bytes, codes, eq_bytes, eq_bytes_iff, min,
}
use casa_os_common.Common.Int.{◌+ℤ◌, pos}
use casa_os_common.Common.Map
use casa_os_common.Common.Map.{Map}
use casa_os_common.Stats.Errors.{Err, Result, ok}
use casa_os_common.Stats.Floats.Toy.{Toy, toy}
use casa_os_common.Stats.Rules.{Rule, cpu_high, mem_high, rule_fault, validate_rules, unknown_key}
use casa_os_common.Stats.Rules.Valid.{AllValid, validate_rules-AllValid}
use casa_os_common.Stats.Ring.Write.{MinuteValue}
use casa_os_common.Common.{false}
use casa_os_common.Stats.Rules.{validate_from, contains}
use casa_os_common.Stats.Evaluator.Item.{is_idle}
use casa_os_common.Stats.Evaluator.Load.{
  FileItem, StateFile, holds, alerts_fit, checked_runs, load_item, load_items, new_evaluator,
}
use casa_os_common.Stats.Evaluator.Calls.{
  minute, setting, resolving, pruning, run_calls, new_evaluator-IsSafe,
}
use casa_os_common.Stats.Errors.{cause, io_error}
use casa_os_common.Stats.Evaluator.Replace.{
  Outcomes, Files, whole_of, AllWhole, IsReplaced, last_of, write_file_atomic,
  write_file_atomic-AllWhole,
}
use casa_os_common.Stats.Evaluator.Invariant.{IsWell}
use casa_os_common.Stats.Evaluator.Reconcile.{History, reconcile_item}
use casa_os_common.Stats.Evaluator.Backwards.{
  is_up, all_high, judged_series, reconcile_item-leading,
}
use casa_os_common.Stats.Evaluator.Item.{is_none, find_alert, Event, ItemState, fresh, max_run}
use casa_os_common.Stats.Evaluator.Key.{view}
use casa_os_common.Stats.Evaluator.Machine.{Evaluator, rules_of, save}
use casa_os_common.Stats.Evaluator.Run.{since_of, trailing, spec_since}
use casa_os_common.Stats.Evaluator.History.{item_at, item_at-since}
use casa_os_common.Stats.Evaluator.Drain.{drained, steps_left, Alone, next, halt, drain_of_empty}
use casa_os_common.Stats.Evaluator.Queue.{
  Queue, locking, Run, stop, go, call, take_batch, panic, empty_queue, enqueue, in_hand, emitting,
  Run-changed,
}

abbrev vm : Bytes
vm = codes "vm"

abbrev cpu_rule : Rule Toy
cpu_rule = record { key = cpu_high; enabled = true; threshold = some 90; minutes = pos 2 }

abbrev mem_rule : Rule Toy
mem_rule = record { key = mem_high; enabled = true; threshold = some 80; minutes = pos 5 }

abbrev bad_rule : Rule Toy
bad_rule = record { key = codes "disk"; enabled = true; threshold = some 90; minutes = pos 2 }

bad_rule_run : rule_fault toy [] bad_rule ≡ some unknown_key
unfolding rule_fault eq_bytes
bad_rule_run = refl

validate_rules-AllValid_example :
    (validate_rules toy (cpu_rule ∷ mem_rule ∷ []) ≡ none
      → AllValid toy [] (cpu_rule ∷ mem_rule ∷ []))
    × (AllValid toy [] (cpu_rule ∷ mem_rule ∷ [])
        → validate_rules toy (cpu_rule ∷ mem_rule ∷ []) ≡ none)
validate_rules-AllValid_example = validate_rules-AllValid toy (cpu_rule ∷ mem_rule ∷ [])

-- A minute whose processor load is 95, and one whose load is 10.
abbrev hot : Bytes → Option Toy
hot k = if eq_bytes k cpu_high then some (some 95) else none

abbrev calm : Bytes → Option Toy
calm k = if eq_bytes k cpu_high then some (some 10) else none

abbrev minutes_seen : List (Bytes → Option Toy)
minutes_seen = hot ∷ hot ∷ hot ∷ calm ∷ []

trailing_run : trailing toy vm cpu_rule minutes_seen ≡ 3
unfolding eq_bytes
trailing_run = refl

keys_differ_here : cpu_rule.key ≢ mem_rule.key
unfolding eq_bytes
keys_differ_here e = let t = (eq_bytes_iff cpu_high mem_high).1 e in ground arith

item_at-since_example :
    ((view cpu_high (item_at toy vm cpu_rule mem_rule (pos 1000) minutes_seen)).run
      ≡ min (trailing toy vm cpu_rule minutes_seen) max_run)
    × (since_of (view cpu_high (item_at toy vm cpu_rule mem_rule (pos 1000) minutes_seen)).alert
        ≡ spec_since toy vm cpu_rule (pos 1000) (trailing toy vm cpu_rule minutes_seen))
item_at-since_example =
    item_at-since toy vm cpu_rule mem_rule keys_differ_here (pos 1000) minutes_seen (omega arith)
      cpu_rule (inl refl) (omega arith) (omega arith)

abbrev marshal : Map (ItemState Toy) → Result Bytes
marshal m = ok (codes "items")

abbrev write : Bytes → Option Err
write b = none

abbrev start : Evaluator Toy
start = record { items = []; saved = []; save_err = none }

start_saved : (save toy marshal write start).save_err ≡ none
unfolding save eq_bytes
start_saved = refl

abbrev cpu_default : Rule Toy
cpu_default = record { key = cpu_high; enabled = true; threshold = some 90; minutes = pos 10 }

abbrev mem_default : Rule Toy
mem_default = record { key = mem_high; enabled = true; threshold = some 90; minutes = pos 5 }

default_in_force : rules_of toy vm start ≡ some (cpu_default ∷ mem_default ∷ [])
unfolding rules_of Map.get
default_in_force = refl

-- Two high minutes of the processor up to minute 1000, recounted in minute 1001.
abbrev hot_cell : MinuteValue Toy
hot_cell = record { avg = some 95; low = some 90; high = some 99 }

abbrev hot_history : History toy
hot_history = (codes "alert/cpu_high", some hot_cell ∷ some hot_cell ∷ []) ∷ []

reconcile_item-leading_example :
    not (
      is_none (
        find_alert cpu_high
          (reconcile_item toy vm
            (pos 60060)
            (ok (pos 1000, hot_history))
            (cpu_rule ∷ mem_rule ∷ [])
            fresh).0.active))
    ≡ true
      && (is_up toy (pos 60060) (pos 1000)
          && all_high toy cpu_rule (judged_series toy cpu_rule hot_history) 2)
reconcile_item-leading_example =
    reconcile_item-leading toy vm (pos 60060) (pos 1000) hot_history cpu_rule mem_rule cpu_rule
      fresh keys_differ_here tt (inl refl) (omega arith)

high_run : all_high toy cpu_rule (judged_series toy cpu_rule hot_history) 2 ≡ true
unfolding Map.get eq_bytes
high_run = refl

up_run : is_up toy (pos 60060) (pos 1000) ≡ true
unfolding ◌+ℤ◌
up_run = refl

-- A call with two events, of which the first makes `emit` panic; then a call with one more.
abbrev called : Queue ℕ
called = record {
  pending = 2 ∷ 3 ∷ [];
  drainer = locking;
  changed = 1 ∷ 2 ∷ 3 ∷ [];
  emitted = 1 ∷ [];
}

called_path : Run empty_queue called
unfolding enqueue
called_path = go _ _ _ (call _ (1 ∷ 2 ∷ [])) (
    go _ _ _ (take_batch 1 (2 ∷ []) (1 ∷ 2 ∷ []) [])
      (go _ _ _ (panic 1 (2 ∷ []) [] (1 ∷ 2 ∷ []) []) (go _ _ _ (call _ (3 ∷ [])) (stop _))))

Run-changed_example : called.changed ≡ called.emitted ++ in_hand called.drainer ++ called.pending
Run-changed_example = Run-changed called called_path

-- The drainer has taken the other two.
abbrev taken : Queue ℕ
taken = record {
  pending = [];
  drainer = emitting (2 ∷ 3 ∷ []);
  changed = called.changed;
  emitted = 1 ∷ [];
}

drain_of_empty_example :
    (1 + steps_left taken ≡ steps_left called)
    × Alone (steps_left taken) taken (drained called.changed called.changed)
drain_of_empty_example =
    drain_of_empty 1 called taken called_path refl
      (next 0 _ _ _ (take_batch 2 (3 ∷ []) called.changed (1 ∷ [])) refl (halt taken))

-- The file has a rule and a firing alert of one item, and one item that is empty.
abbrev stored : FileItem Toy
stored = record {
  rules = cpu_rule ∷ [];
  active = record { key = cpu_high; since = pos 60; value = some 95 } ∷ [];
  runs = (cpu_high, pos 3) ∷ [];
  last = pos 4;
}

abbrev empty_item : FileItem Toy
empty_item = record { rules = []; active = []; runs = []; last = pos 0 }

abbrev parsed : Bytes → Option (StateFile Toy)
parsed b =
    some
      (record { version = pos 1; items = (vm, some stored) ∷ (codes "gone", some empty_item) ∷ [] })

abbrev loaded_start : Evaluator Toy
loaded_start = record {
  items =
      (
        vm,
        record {
          rules = stored.rules;
          active = stored.active;
          runs = (cpu_high, 3) ∷ [];
          last = pos 4;
        },
      )
      ∷ [];
  saved = codes "{}";
  save_err = none;
}

load_run : new_evaluator toy parsed none (holds (codes "{}")) ≡ some (loaded_start, false)
unfolding new_evaluator load_items load_item validate_rules validate_from rule_fault alerts_fit
    checked_runs contains eq_bytes is_idle
load_run = refl

-- A second alert of a key makes the file corrupt.
twice_run :
    new_evaluator toy
      (λ b. some (record {
        version = pos 1;
        items = (vm, some (record stored { active = stored.active ++ stored.active })) ∷ [];
      }))
      none
      (holds [])
    ≡ some (start, true)
unfolding new_evaluator load_items load_item validate_rules validate_from rule_fault alerts_fit
    checked_runs contains eq_bytes
twice_run = refl

new_evaluator-IsSafe_example :
    (q : Evaluator Toy × List (Event Toy)) × (run_calls toy
        (λ s. true)
        marshal
        write
        (minute vm (pos 5) (λ k. ok (some (some 10)))
          ∷ setting vm (mem_rule ∷ []) (pos 400) (ok (pos 5, hot_history))
          ∷ resolving vm
          ∷ pruning []
          ∷ [])
        loaded_start
      ≡ some q)
    × IsWell q.0
new_evaluator-IsSafe_example =
    new_evaluator-IsSafe toy (λ s. true) marshal write parsed none (holds (codes "{}")) loaded_start
      false
      (minute vm (pos 5) (λ k. ok (some (some 10)))
        ∷ setting vm (mem_rule ∷ []) (pos 400) (ok (pos 5, hot_history))
        ∷ resolving vm
        ∷ pruning []
        ∷ [])
      load_run

-- The disk is full in the middle of the write.
abbrev full_disk : Outcomes
full_disk = record {
  opened = none;
  written = some (cause io_error);
  left = 1;
  synced = none;
  closed = none;
  renamed = none;
  removed = none;
  dir_synced = none;
}

abbrev old_files : Files
old_files = record { path = whole_of (codes "old"); tmp = none }

full_run : write_file_atomic full_disk (codes "new") old_files ≡ (
  some (cause io_error),
  record old_files { tmp = some (record { bytes = []; synced = false }) }
      ∷ record old_files { tmp = some (record { bytes = codes "n"; synced = false }) }
      ∷ record old_files { tmp = some (record { bytes = codes "n"; synced = false }) }
      ∷ old_files
      ∷ [],
)
unfolding write_file_atomic
full_run = refl

write_file_atomic-AllWhole_example :
    AllWhole
      (whole_of (codes "old"))
      (codes "new")
      (write_file_atomic (record full_disk { written = none }) (codes "new") old_files).1
    × IsReplaced
        (write_file_atomic (record full_disk { written = none }) (codes "new") old_files).0
        (codes "new")
        (last_of old_files
          (write_file_atomic (record full_disk { written = none }) (codes "new") old_files).1)
write_file_atomic-AllWhole_example =
    write_file_atomic-AllWhole (record full_disk { written = none }) (codes "new") old_files
