-- ===== src/Stats/Store/Sample.antt =====
-- The values of a sample: `agg` and the sums of `record`, and `clean`, of pkg/stats/store.go.
-- The keys of a map are listed once each.
use casa_os_common.Common.{
  ℕ, suc, ◌+◌, Bool, true, false, not, ◌||◌, Option, none, some, List, [], ◌∷◌, length, ltb, leb,
  if◌then◌else◌, Bytes, lt_bytes,
}
use casa_os_common.Common.Map
use casa_os_common.Common.Map.{Map}
use casa_os_common.Stats.Errors.{Err, Errs, nil, cons, cause, wrap, join, bad_key, series_cap}
use casa_os_common.Stats.Limits.{max_key_len, max_series}
use casa_os_common.Stats.Floats.{Floats}
use casa_os_common.Stats.Rules.{contains}
use casa_os_common.Stats.Ring.Write.{MinuteValue}

pub record Agg (F : Type 0) : Type 0 where
  pub sum : F
  pub low : F
  pub high : F
  pub count : ℕ

-- `errors.Join`: nil where all are nil
abbrev pub join_all : Errs → Option Err
join_all nil = none
join_all (cons e es) = some (join (cons e es))

-- `errors.Join(a, b)`
abbrev pub join_two : Option Err → Option Err → Option Err
join_two none none = none
join_two (some a) none = some (join (cons a nil))
join_two none (some b) = some (join (cons b nil))
join_two (some a) (some b) = some (join (cons a (cons b nil)))

-- `slices.Sort` of the keys, each with its value.
module _ {ℓ} {V : Type ℓ} where
  unfoldable pub insert_key : Bytes → V → Map V → Map V
  insert_key k v [] = (k, v) ∷ []
  insert_key k v ((j, w) ∷ m) =
      if lt_bytes k j then (k, v) ∷ (j, w) ∷ m else (j, w) ∷ insert_key k v m

  unfoldable pub sort_keys : Map V → Map V
  unfolding insert_key
  sort_keys [] = []
  sort_keys ((k, v) ∷ m) = insert_key k v (sort_keys m)

  abbrev pub has_key : Bytes → Map V → Bool
  has_key k m = elim (Map.get k m) [ none ↦ false | some v ↦ true ]

  -- The keys of a map that are not in the list, counted.
  unfoldable pub count_new : List Bytes → Map V → ℕ
  count_new known [] = 0
  count_new known ((k, v) ∷ m) =
      let rest = count_new known m in if contains known k then rest else suc rest

-- What `clean` does with a key.
pub data Verdict : Type 0 where
  bad_length no_value over_cap known new : Verdict

module _ {F : Type 0} (fl : Floats F) where
  -- The tests on one key, with `n` series so far.
  unfoldable pub judge_key : List Bytes → Map (Agg F) → ℕ → Bytes → F → Verdict
  judge_key names acc n k v =
      if ltb (length k) 1 || ltb max_key_len (length k)
      then bad_length
      else if not (fl.fits32 v)
      then no_value
      else if has_key k acc || contains names k
      then known
      else if leb max_series n
      then over_cap
      else new

  abbrev pub more_series : Verdict → ℕ → ℕ
  more_series new n = suc n
  more_series _ n = n

  abbrev pub keep_value : Verdict → Bytes → F → Map F × Errs → Map F × Errs
  keep_value bad_length k v (out, errs) = (out, cons (wrap (cause bad_key)) errs)
  keep_value no_value k v (out, errs) = (out, errs)
  keep_value over_cap k v (out, errs) = (out, cons (wrap (cause series_cap)) errs)
  keep_value known k v (out, errs) = ((k, v) ∷ out, errs)
  keep_value new k v (out, errs) = ((k, v) ∷ out, errs)

  -- The loop over the sorted keys.
  unfoldable pub clean_keys : List Bytes → Map (Agg F) → ℕ → Map F → Map F × Errs
  unfolding judge_key
  clean_keys names acc n [] = ([], nil)
  clean_keys names acc n ((k, v) ∷ smp) =
      let j = judge_key names acc n k v in
      keep_value j k v (clean_keys names acc (more_series j n) smp)

  -- `clean`
  unfoldable pub clean : List Bytes → Map (Agg F) → Map F → Map F × Option Err
  unfolding clean_keys count_new sort_keys
  clean names acc smp =
      let (out, errs) = clean_keys names acc (length names + count_new names acc) (sort_keys smp) in
      (out, join_all errs)

  -- One value into the pending minute.
  unfoldable pub add_value : Bytes → F → Map (Agg F) → Map (Agg F)
  add_value k v acc = elim (Map.get k acc) [
    | none ↦ Map.put k (record { sum = v; low = v; high = v; count = 1 }) acc
    | some a ↦
        Map.put k
          (record {
            sum = fl.add a.sum v;
            low = fl.fmin a.low v;
            high = fl.fmax a.high v;
            count = a.count + 1;
          })
          acc
  ]

  unfoldable pub add_sample : Map F → Map (Agg F) → Map (Agg F)
  unfolding add_value
  add_sample [] acc = acc
  add_sample ((k, v) ∷ smp) acc = add_sample smp (add_value k v acc)

  -- `minuteValue{a.sum / float64(a.n), a.min, a.max}`
  abbrev pub minute_of : Agg F → MinuteValue F
  minute_of a = record { avg = fl.div a.sum a.count; low = a.low; high = a.high }
