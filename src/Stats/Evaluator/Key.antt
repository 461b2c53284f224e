-- ===== src/Stats/Evaluator/Key.antt =====
-- `onMinute` of pkg/stats/evaluator.go as two machines, one for each rule key, that share nothing.
use casa_os_common.Common.{
  ℕ, ◌+◌, ◌≡◌, refl, ◌≢◌, arith, Bool, true, false, ◌&&◌, Option, none, some, List, [], ◌∷◌, ◌++◌,
  if◌then◌else◌, Option-cases, inl, inr, min, Bytes, eq_bytes_iff,
}
use casa_os_common.Common.Int.{ℤ, pos, ◌+ℤ◌, ◌-ℤ◌, ◌*ℤ◌, leb_ℤ}
use casa_os_common.Common.Map
use casa_os_common.Stats.Floats.{Floats}
use casa_os_common.Stats.Rules.{Rule}
use casa_os_common.Stats.Evaluator.Item.{
  Event, Alert, ItemState, firing, resolved, is_none, max_run, run_of, find_alert, remove_alert,
  sort_alerts, high_value, low_value, fire, judge_low, judge_high, judge,
}
use casa_os_common.Stats.Evaluator.Alerts.{
  Distinct, find-remove_same, find-remove_other, Distinct-remove, find-fired, Distinct-fired,
  remove_none,
}

-- What the evaluator knows of one key: the length of its run and its alert.
pub record KeyState (F : Type 0) : Type 0 where
  pub run : ℕ
  pub alert : Option (Alert F)

module _ {F : Type 0} where
  abbrev pub view : Bytes → ItemState F → KeyState F
  view k st = record { run = run_of k st.runs; alert = find_alert k st.active }

  abbrev pub fired : Bytes → ℤ → F → Bytes → ℕ → Alert F
  fired item m v k n = record { key = k; since = (m -ℤ pos n +ℤ pos 1) *ℤ pos 60; value = v }

  abbrev pub firing_event : Bytes → Alert F → Event F
  firing_event item a = record {
    item = item;
    key = a.key;
    state = firing;
    value = a.value;
    since = a.since;
  }

  abbrev pub resolved_event : Bytes → Bytes → F → Alert F → Event F
  resolved_event item k v a = record {
    item = item;
    key = k;
    state = resolved;
    value = v;
    since = a.since;
  }

module _ {F : Type 0} (fl : Floats F) where
  -- One minute of one key.
  abbrev pub key_step :
      Bytes → ℤ → (Bytes → Option F) → Rule F → KeyState F → KeyState F × List (Event F)
  key_step item m vals r s = elim (high_value fl vals r) [
    | none ↦ (
      record { run = 0; alert = none },
      elim s.alert [ none ↦ [] | some a ↦ resolved_event item r.key (low_value fl vals r) a ∷ [] ],
    )
    | some v ↦
        (let n = min (s.run + 1) max_run in
          if leb_ℤ r.minutes (pos n) && is_none s.alert
          then (
            record { run = n; alert = some (fired item m v r.key n) },
            firing_event item (fired item m v r.key n) ∷ [],
          )
          else (record { run = n; alert = s.alert }, []))
  ]

  run_of-del : (k : Bytes) (runs : Map.Map ℕ) → run_of k (Map.del k runs) ≡ 0
  run_of-del k runs = ground (arith, Map.get-del k k runs, eq_bytes_iff k k)

  judge_low-view :
      (item : Bytes) (v : F) (k : Bytes) (st : ItemState F)
      → Distinct st.active
      → view k (judge_low fl item v k st).0 ≡ record { run = 0; alert = none }
  unfolding judge_low
  judge_low-view item v k st d =
      ground (arith, run_of-del k st.runs, find-remove_same k st.active d)

  judge_low-events :
      (item : Bytes) (v : F) (k : Bytes) (st : ItemState F)
      → (judge_low fl item v k st).1
        ≡ elim (find_alert k st.active) [ none ↦ [] | some a ↦ resolved_event item k v a ∷ [] ]
  unfolding judge_low
  judge_low-events item v k st = ground arith

  judge_low-other :
      (item : Bytes) (v : F) (j k : Bytes) (st : ItemState F)
      → j ≢ k
      → view k (judge_low fl item v j st).0 ≡ view k st
  unfolding judge_low
  judge_low-other item v j k st ne =
      ground (arith, Map.get-del j k st.runs, eq_bytes_iff j k, find-remove_other j k st.active ne)

  judge_low-active :
      (item : Bytes) (v : F) (k : Bytes) (st : ItemState F)
      → (judge_low fl item v k st).0.active ≡ remove_alert k st.active
  unfolding judge_low
  judge_low-active item v k st = ground (arith, remove_none k st.active)

  judge_low-Distinct :
      (item : Bytes) (v : F) (k : Bytes) (st : ItemState F)
      → Distinct st.active
      → Distinct (judge_low fl item v k st).0.active
  unfolding judge_low
  judge_low-Distinct item v k st d =
      rw (judge_low-active item v k st) (Distinct-remove k st.active d)

  judge_high-other :
      (item : Bytes) (m : ℤ) (v : F) (r : Rule F) (k : Bytes) (st : ItemState F)
      → r.key ≢ k
      → Distinct st.active
      → view k (judge_high fl item m v r st).0 ≡ view k st
  unfolding judge_high fire
  judge_high-other item m v r k st ne d =
      let n = min (run_of r.key st.runs + 1) max_run in
      ground (
        arith,
        Map.get-put r.key k n st.runs,
        eq_bytes_iff r.key k,
        find-fired k (fired item m v r.key n) st.active,
      )

  judge_high-active :
      (item : Bytes) (m : ℤ) (v : F) (r : Rule F) (st : ItemState F)
      → (let n = min (run_of r.key st.runs + 1) max_run in
          (judge_high fl item m v r st).0.active ≡ (
            if leb_ℤ r.minutes (pos n) && is_none (find_alert r.key st.active)
            then sort_alerts (st.active ++ fired item m v r.key n ∷ [])
            else st.active))
  unfolding judge_high fire
  judge_high-active item m v r st = ground arith

  Distinct-guarded :
      (c : Bool) (o : Option (Alert F)) (l m : List (Alert F))
      → (o ≡ none → Distinct l)
      → Distinct m
      → Distinct (if c && is_none o then l else m)
  Distinct-guarded true none l m f d = f refl
  Distinct-guarded true (some a) l m f d = d
  Distinct-guarded false o l m f d = d

  judge_high-Distinct :
      (item : Bytes) (m : ℤ) (v : F) (r : Rule F) (st : ItemState F)
      → Distinct st.active
      → Distinct (judge_high fl item m v r st).0.active
  unfolding judge_high fire
  judge_high-Distinct item m v r st d =
      let n = min (run_of r.key st.runs + 1) max_run in
      rw (judge_high-active item m v r st) (
        Distinct-guarded (leb_ℤ r.minutes (pos n)) (find_alert r.key st.active)
          (sort_alerts (st.active ++ fired item m v r.key n ∷ [])) st.active
          (λ h. Distinct-fired (fired item m v r.key n) st.active h d) d)

  -- A rule judges its own key as `key_step` does, and leaves the other keys alone.
  pub judge-key_step :
      (item : Bytes) (m : ℤ) (vals : Bytes → Option F) (r : Rule F) (st : ItemState F)
      → Distinct st.active
      → (view r.key (judge fl item m vals r st).0, (judge fl item m vals r st).1)
        ≡ key_step item m vals r (view r.key st)
  unfolding judge judge_low judge_high fire
  judge-key_step item m vals r st d =
      let n = min (run_of r.key st.runs + 1) max_run in
      elim (Option-cases (high_value fl vals r)) [
        | inl h ↦ ground (arith, h, run_of-del r.key st.runs, find-remove_same r.key st.active d)
        | inr (v, h) ↦
            (ground (
              arith,
              h,
              Map.get-put r.key r.key n st.runs,
              eq_bytes_iff r.key r.key,
              find-fired r.key (fired item m v r.key n) st.active,
            ))
      ]

  pub judge-other :
      (item : Bytes) (m : ℤ) (vals : Bytes → Option F) (r : Rule F) (k : Bytes) (st : ItemState F)
      → r.key ≢ k
      → Distinct st.active
      → view k (judge fl item m vals r st).0 ≡ view k st
  unfolding judge
  judge-other item m vals r k st ne d = elim (Option-cases (high_value fl vals r)) [
    | inl h ↦ ground (arith, h, judge_low-other item (low_value fl vals r) r.key k st ne)
    | inr (v, h) ↦ ground (arith, h, judge_high-other item m v r k st ne d)
  ]

  judge_of_none :
      (item : Bytes) (m : ℤ) (vals : Bytes → Option F) (r : Rule F) (st : ItemState F)
      → high_value fl vals r ≡ none
      → judge fl item m vals r st ≡ judge_low fl item (low_value fl vals r) r.key st
  unfolding judge
  judge_of_none item m vals r st h = ground (arith, h)

  judge_of_some :
      (item : Bytes) (m : ℤ) (v : F) (vals : Bytes → Option F) (r : Rule F) (st : ItemState F)
      → high_value fl vals r ≡ some v
      → judge fl item m vals r st ≡ judge_high fl item m v r st
  unfolding judge
  judge_of_some item m v vals r st h = ground (arith, h)

  pub judge-Distinct :
      (item : Bytes) (m : ℤ) (vals : Bytes → Option F) (r : Rule F) (st : ItemState F)
      → Distinct st.active
      → Distinct (judge fl item m vals r st).0.active
  unfolding judge
  judge-Distinct item m vals r st d = elim (Option-cases (high_value fl vals r)) [
    | inl h ↦
        (rw (judge_of_none item m vals r st h)
          (judge_low-Distinct item (low_value fl vals r) r.key st d))
    | inr (v, h) ↦ rw (judge_of_some item m v vals r st h) (judge_high-Distinct item m v r st d)
  ]

  pub judge-kept :
      (item : Bytes) (m : ℤ) (vals : Bytes → Option F) (r : Rule F) (st : ItemState F)
      → (judge fl item m vals r st).0.rules ≡ st.rules
  unfolding judge judge_low judge_high fire
  judge-kept item m vals r st = ground arith
