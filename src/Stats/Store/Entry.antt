-- ===== src/Stats/Store/Entry.antt =====
-- One item of the store (`entry` of pkg/stats/store.go): `commit` and `record`, under the lock of the
-- entry.
pub mod Kept
use casa_os_common.Common.{
  ℕ, Bool, true, false, not, ◌&&◌, ◌||◌, Option, none, some, List, [], ◌∷◌, ◌==◌, if◌then◌else◌,
  Bytes,
}
use casa_os_common.Common.Int.{ℤ, pos, ltb_ℤ, quot}
use casa_os_common.Common.Map
use casa_os_common.Common.Map.{Map}
use casa_os_common.Stats.Errors.{Err, Result, ok, err, cause, gone, store_closed, out_of_order}
use casa_os_common.Stats.Floats.{Floats}
use casa_os_common.Stats.Ring.Write.{MinuteValue}
use casa_os_common.Stats.Live.{LiveRing, new_live_ring, put_live}
use casa_os_common.Stats.Store.Clock.{Time, unix, before, within_minute}
use casa_os_common.Stats.Store.Rings.{Rings}
use casa_os_common.Stats.Store.Sample.{Agg, sort_keys, clean, add_sample, minute_of, join_two}

-- `entry`; `last` is `none` without `hasLast`, and `acc` is `none` for a nil map.
pub record Entry (F R : Type 0) : Type 0 where
  pub ring : R
  pub live : LiveRing F
  pub closed : Bool
  pub is_gone : Bool
  pub last : Option Time
  pub acc_min : ℤ
  pub acc : Option (Map (Agg F))

-- What `record` returns: the minute it committed, if any, and the error.
pub record Outcome : Type 0 where
  pub committed : Option ℤ
  pub error : Option Err

abbrev pub refused : Err → Outcome
refused x = record { committed = none; error = some x }

abbrev pub keys_of : {F : Type 0} → Option (Map (Agg F)) → Map (Agg F)
keys_of none = []
keys_of (some acc) = acc

-- Whether the time of a sample is before the last one, and by a minute at most.
unfoldable pub is_late : Option Time → Time → Bool
is_late none at = false
is_late (some last) at = before at last && within_minute last at

unfoldable pub is_reset : Option Time → Time → Bool
is_reset none at = false
is_reset (some last) at = before at last && not (within_minute last at)

module _ {F R : Type 0} (fl : Floats F) (rs : Rings F R) where
  abbrev pub new_entry : R → Entry F R
  new_entry r = record {
    ring = r;
    live = new_live_ring fl;
    closed = false;
    is_gone = false;
    last = none;
    acc_min = pos 0;
    acc = none;
  }

  -- The loop of `commit`: the index of each series, or the first error.
  unfoldable pub commit_keys :
      Map (Agg F) → (ℕ → Option (MinuteValue F)) → R → Result (ℕ → Option (MinuteValue F)) × R
  commit_keys [] vals r = (ok vals, r)
  commit_keys ((k, a) ∷ m) vals r =
      let p = rs.add_series k r in
      elim p.0 [
        | err e ↦ (err e, p.1)
        | ok i ↦ commit_keys m (λ j. if i == j then some (minute_of fl a) else vals j) p.1
      ]

  -- `commit` of the minute `m`
  unfoldable pub commit : ℤ → Map (Agg F) → R → Result (Unit {0}) × R
  unfolding commit_keys sort_keys
  commit m acc r =
      let p = commit_keys (sort_keys acc) (λ i. none) r in
      elim p.0 [ err e ↦ (err e, p.1) | ok vals ↦ rs.write_minute m vals p.1 ]

  -- `e.live.reset()`
  abbrev pub reset_live : LiveRing F → LiveRing F
  reset_live l = new_live_ring fl

  -- The clock has stepped back: the pending minute and the live samples go.
  unfoldable pub step_back : Entry F R → Entry F R
  step_back e = record e { acc = none; live = reset_live e.live }

  -- The commit of the pending minute, if the sample is of a later one; then the pending minute of the
  -- sample is there.
  unfoldable pub roll_over : ℤ → Entry F R → Entry F R × Option ℤ × Option Err
  unfolding commit
  roll_over m e = elim e.acc [
    | none ↦ (record e { acc = some []; acc_min = m }, none, none)
    | some acc ↦
        (let p = commit e.acc_min acc e.ring in
          let e' = record e { ring = p.1; acc = some []; acc_min = m } in
          if ltb_ℤ e.acc_min m
          then elim p.0 [ ok u ↦ (e', some e.acc_min, none) | err x ↦ (e', none, some x) ]
          else (e, none, none))
  ]

  -- The entry with the last time and the live values of a sample.
  abbrev pub sampled : Time → Map F → Entry F R → Entry F R
  sampled at out e = record e { last = some at; live = put_live fl (unix at) out e.live }

  -- `record` from the clean sample on.
  unfoldable pub accept : Time → Map F → Entry F R → Entry F R × Outcome
  unfolding clean roll_over add_sample
  accept at smp e =
      let (out, rejected) = clean fl (rs.series e.ring) (keys_of e.acc) smp in
      let (e2, minute, failed) = roll_over (quot (unix at) 60) (sampled at out e) in
      (
        record e2 { acc = some (add_sample fl out (keys_of e2.acc)) },
        record { committed = minute; error = join_two failed rejected },
      )

  -- `record`
  unfoldable pub record_sample : Time → Map F → Entry F R → Entry F R × Outcome
  unfolding accept is_late is_reset step_back
  record_sample at smp e =
      if e.is_gone
      then (e, refused (cause gone))
      else if e.closed
      then (e, refused (cause store_closed))
      else if is_late e.last at
      then (e, refused (cause out_of_order))
      else accept at smp (if is_reset e.last at then step_back e else e)
