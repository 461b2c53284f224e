-- ===== src/Stats/Tests.antt =====
-- Runs of the live ring (pkg/stats/live.go) and of `IsPartial` (types.go), and uses of their theorems.
use casa_os_common.Common.{
  ◌/◌, ◌%◌, ◌≡◌, refl, true, false, none, some, [], ◌∷◌, ◌==◌, if◌then◌else◌, Bytes, codes,
  eq_bytes,
}
use casa_os_common.Common.Int.{pos, eq_ℤ}
use casa_os_common.Common.Map
use casa_os_common.Common.Map.{Map}
use casa_os_common.Stats.Limits.{live_slots}
use casa_os_common.Stats.Floats.Toy.{Toy, toy}
use casa_os_common.Stats.Errors.{Err, cause, wrap, join, nil, cons, series_cap, bad_key, io_error}
use casa_os_common.Stats.Live.{LiveRing, live_step, live_index, new_live_ring, put_live}
use casa_os_common.Stats.Live.Slots.{value_in, sampled, put_live-value_in}
use casa_os_common.Stats.Partial.{is_partial, is_key_error}
use casa_os_common.Stats.Partial.Causes.{all_keys, is_partial-all_keys}

abbrev total : Bytes
total = codes "cpu/total"

abbrev live : LiveRing Toy
live = record (new_live_ring toy) { series = (total, λ i. some i) ∷ [] }

abbrev sample : Map Toy
sample = (total, some 7) ∷ []

put_live-value_in_example : value_in toy (put_live toy (pos 905) sample live) total (pos 1) ≡ (
    if eq_ℤ (pos 1) (pos (905 / live_step))
    then some (sampled toy total sample)
    else if live_index (pos 1) == 905 / live_step % live_slots
    then some none
    else value_in toy live total (pos 1))
unfolding Map.get eq_bytes
put_live-value_in_example =
    put_live-value_in toy 905 sample live total (λ i. some i) (pos 1) (refl, tt) refl

-- A sample with a key over the cap and a bad one, of which a write failed.
abbrev rejected : Err
rejected = join (cons (wrap (cause series_cap)) (cons (cause bad_key) (cons (cause io_error) nil)))

is_partial-all_keys_example : is_partial rejected ≡ all_keys rejected
is_partial-all_keys_example = is_partial-all_keys rejected (tt, (tt, (tt, tt)))

rejected_run : is_partial rejected ≡ false
unfolding is_partial
rejected_run = refl

-- The same error, wrapped.
wrapped_run : is_partial (wrap rejected) ≡ true
unfolding is_partial is_key_error
wrapped_run = refl
