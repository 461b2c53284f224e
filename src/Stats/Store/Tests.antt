-- ===== src/Stats/Store/Tests.antt =====
-- Tests of the store (pkg/stats/store.go) with rings in memory, and instances of its theorems.
use casa_os_common.Common.{
  ℕ, ◌+◌, ◌*◌, ◌≤◌, ◌≡◌, eq_bytes, ◌≢◌, refl, arith, true, false, none, some, List, [], ◌∷◌, ◌++◌,
  length, Bytes, codes,
}
use casa_os_common.Common.Int.{◌+ℤ◌, ℤ, pos}
use casa_os_common.Common.Map
use casa_os_common.Common.Map.{Map}
use casa_os_common.Stats.Limits.{max_series}
use casa_os_common.Stats.Errors.{Err, Result, ok, err, cause, gone}
use casa_os_common.Stats.Floats.Toy.{Toy, toy}
use casa_os_common.Stats.Store.Clock.{Time, second}
use casa_os_common.Stats.Store.Rings.{Rings}
use casa_os_common.Stats.Store.Files.{OpenRing, file_rings}
use casa_os_common.Stats.Ring.Create.{new_ring}
use casa_os_common.Stats.Store.Sample.{Agg, add_sample, clean, count_new}
use casa_os_common.Stats.Store.Entry.{Entry, new_entry}
use casa_os_common.Stats.Store.State.{Store, count_live}
use casa_os_common.Stats.Store.Lifetime.{empty_store}
use casa_os_common.Stats.Store.Calls.{is_gone_error, remove_item, record_item}
use casa_os_common.Stats.Store.Invariant.{IsWell}
use casa_os_common.Stats.Store.Safety.{
  remove_item-IsWell, Call, record_call, forget_call, sweep_call, run_calls, run_calls-IsWell,
}
use casa_os_common.Stats.Store.Answers.{record_item-not_gone}
use casa_os_common.Stats.Store.Values.{add_sample-clean}
use casa_os_common.Stats.Store.Totals.{IsSum, gathered, add_sample-IsSum}
use casa_os_common.Stats.Store.Steady.{IsNear, minutes-IsRising}
use casa_os_common.Stats.Store.Minutes.{minutes, IsRising}

-- A ring that keeps its mark, its series and the minutes written.
record Memory : Type 0 where
  mark : ℤ
  series : List Bytes
  written : List ℤ

abbrev IsOk : {A : Type 0} → Result A → Type 0
IsOk (ok a) = Unit
IsOk (err e) = ⊥

ok_not_err : (r : Result (Unit {0})) (e : Err) → IsOk r → r ≡ err e → ⊥
ok_not_err (ok u) e k h = ground arith
ok_not_err (err x) e k h = k

abbrev rings : Rings Toy Memory
rings = record {
  forgotten_at = λ r. r.mark;
  series = λ r. r.series;
  set_forgotten = λ t r. (ok tt, record r { mark = t });
  add_series = λ k r. (ok (length r.series), record r { series = r.series ++ k ∷ [] });
  write_minute = λ m vals r. (ok tt, record r { written = r.written ++ m ∷ [] });
  newest_minute = λ r. ok 0;
  close = λ r. (ok tt, r);
  forgotten-set_forgotten = λ t r h. refl;
  forgotten-set_forgotten_err = λ t r e h. absurd (ok_not_err (ok tt) e tt h);
  forgotten-add_series = λ k r. refl;
  forgotten-write_minute = λ m vals r. refl;
  forgotten-close = λ r. refl;
  set_forgotten-not_gone = λ t r h. ok_not_err (ok tt) (cause gone) tt h;
}

-- Ring files, all reads and closings of which succeed, with a checksum that is always 0.
abbrev files : Rings Toy OpenRing
files = file_rings (λ bs. 0) toy (λ f. some f) (λ r. ok tt)

abbrev new_file_ring : Bytes → OpenRing
new_file_ring name = record { ring = new_ring (λ bs. 0) name; same = refl }

abbrev empty_files : Store Toy OpenRing
empty_files = empty_store toy files (λ s. s)

empty_files-IsWell : IsWell files empty_files
unfolding count_live
empty_files-IsWell = record { cap = omega arith; apart = tt; held = tt }

abbrev create_file : Bytes → Result OpenRing
create_file name = ok (new_file_ring name)

abbrev fresh : Store Toy Memory
fresh = empty_store toy rings (λ s. s)

abbrev cpu : Bytes
cpu = codes "cpu"

abbrev nas : Bytes
nas = codes "nas"

abbrev at : ℕ → Time
at n = pos (n * second)

abbrev sample : ℕ → Map Toy
sample n = (cpu, some n) ∷ (codes "mem", some 7) ∷ []

abbrev create : Bytes → Result Memory
create name = ok (record { mark = pos 0; series = []; written = [] })

fresh-IsWell : IsWell rings fresh
unfolding count_live
fresh-IsWell = record { cap = omega arith; apart = tt; held = tt }

-- Two samples, the removal mark, and a later sample that revives the item.
abbrev day : List (Call Toy OpenRing)
day =
    record_call create_file nas (at 60) (sample 5)
    ∷ forget_call nas (at 70)
    ∷ record_call create_file nas (at 130) (sample 9)
    ∷ sweep_call (at 140) (ok [])
    ∷ []

run_calls-IsWell_example :
    IsWell files (run_calls toy files (λ s. s) (λ s. none) (λ s. true) day empty_files)
run_calls-IsWell_example =
    run_calls-IsWell toy files (λ s. s) (λ s. none) (λ s. true) day empty_files empty_files-IsWell

-- A call of `Sweep` that removes the item while `Record` works on it.
abbrev swept : Store Toy OpenRing → Store Toy OpenRing
swept s = (remove_item files (λ s. none) nas s).1

create-not_gone : create_file nas ≢ err (cause gone)
create-not_gone h = ground arith

record_item-not_gone_example :
    is_gone_error
      (record_item toy files
        (λ s. s)
        create_file
        (λ s. true)
        (swept ∷ [])
        nas
        (at 60)
        (sample 5)
        empty_files).0.error
    ≡ false
record_item-not_gone_example =
    record_item-not_gone toy files (λ s. s) create_file (λ s. true) (swept ∷ []) nas (at 60)
      (sample 5) empty_files create-not_gone
      ((λ s w. remove_item-IsWell files (λ s. none) nas s w), tt) empty_files-IsWell

add_sample-clean_example :
    1 + count_new (cpu ∷ []) (add_sample toy (clean toy (cpu ∷ []) [] (sample 5)).0 []) ≤ max_series
unfolding count_new
add_sample-clean_example = add_sample-clean toy (cpu ∷ []) [] (sample 5) (omega arith)

abbrev pending : Map (Agg Toy)
pending = (cpu, record { sum = some 4; low = some 4; high = some 4; count = 1 }) ∷ []

add_sample-IsSum_example :
    IsSum toy
      (gathered toy cpu (sample 5) (some 4 ∷ []))
      (Map.get cpu (add_sample toy (sample 5) pending))
unfolding Map.get eq_bytes
add_sample-IsSum_example =
    add_sample-IsSum toy cpu (sample 5) pending (some 4 ∷ [])
      ((omega arith, omega arith, refl), ((omega arith, omega arith, refl), tt))
      (refl, refl, ((refl, refl), tt), refl, refl)

abbrev hour : List (Time × Map Toy)
hour = (at 60, sample 5) ∷ (at 120, sample 6) ∷ (at 119, sample 6) ∷ (at 200, sample 2) ∷ []

abbrev nas_entry : Entry Toy OpenRing
nas_entry = new_entry toy files (new_file_ring nas)

hour-IsNear : IsNear none hour
unfolding ◌+ℤ◌
hour-IsNear = (omega arith, (omega arith, (omega arith, tt)))

minutes-IsRising_example : IsRising none (minutes toy files hour nas_entry)
minutes-IsRising_example = minutes-IsRising toy files hour nas_entry hour-IsNear
