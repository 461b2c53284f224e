-- ===== src/Stats/Evaluator/Recount.antt =====
-- What `reconcile` of pkg/stats/evaluator.go leaves of each rule.
use casa_os_common.Common.{
  ℕ, ◌≡◌, ◌≢◌, arith, not, none, some, List, [], ◌∷◌, ◌++◌, if◌then◌else◌, inl, inr, Option-cases,
  Bytes, eq_bytes_iff,
}
use casa_os_common.Common.Int.{ℤ, pos, ◌+ℤ◌, ◌-ℤ◌, ◌*ℤ◌, ltb_ℤ, leb_ℤ}
use casa_os_common.Common.Map
use casa_os_common.Common.Map.{Map}
use casa_os_common.Stats.Floats.{Floats}
use casa_os_common.Stats.Rules.{Rule}
use casa_os_common.Stats.Ring.Window.{Cell}
use casa_os_common.Stats.Evaluator.Item.{
  Alert, ItemState, is_none, run_of, find_alert, remove_alert, sort_alerts, fire,
}
use casa_os_common.Stats.Evaluator.Alerts.{
  Distinct, Distinct-if, Distinct-fired, Distinct-remove, find-remove_same, find-remove_other,
  find-fired,
}
use casa_os_common.Stats.Evaluator.Reconcile.{count_high, newest_value, recount}

module _ {F : Type 0} (fl : Floats F) where
  -- The run that the cells of a rule give.
  abbrev pub run_in : List (Cell fl) → Rule F → ℕ
  run_in cells r = if r.enabled then count_high fl r 0 cells else 0

  abbrev refired : Bytes → ℤ → List (Cell fl) → Rule F → Alert F
  refired item newest cells r = record {
    key = r.key;
    since = (newest -ℤ pos (run_in cells r) +ℤ pos 1) *ℤ pos 60;
    value = newest_value fl cells;
  }

  pub recount-run :
      (item : Bytes) (newest : ℤ) (cells : List (Cell fl)) (r : Rule F) (st : ItemState F)
      (runs : Map ℕ)
      → Map.get r.key runs ≡ none
      → run_of r.key (recount fl item newest cells r (st, runs)).1 ≡ run_in cells r
  unfolding recount
  recount-run item newest cells r st runs h =
      ground (arith, h, Map.get-put r.key r.key (run_in cells r) runs, eq_bytes_iff r.key r.key)

  pub recount-active :
      (item : Bytes) (newest : ℤ) (cells : List (Cell fl)) (r : Rule F) (st : ItemState F)
      (runs : Map ℕ)
      → Distinct st.active
      → not (is_none (find_alert r.key (recount fl item newest cells r (st, runs)).0.active))
        ≡ leb_ℤ r.minutes (pos (run_in cells r))
  unfolding recount fire
  recount-active item newest cells r st runs d = elim (Option-cases (find_alert r.key st.active)) [
    | inl h ↦
        (ground (
          arith,
          h,
          eq_bytes_iff r.key r.key,
          find-fired r.key (refired item newest cells r) st.active h d,
        ))
    | inr (a, h) ↦ ground (arith, h, find-remove_same r.key st.active d)
  ]

  pub recount-other :
      (item : Bytes) (newest : ℤ) (cells : List (Cell fl)) (r : Rule F) (k : Bytes)
      (st : ItemState F) (runs : Map ℕ)
      → r.key ≢ k
      → Distinct st.active
      → find_alert k (recount fl item newest cells r (st, runs)).0.active ≡ find_alert k st.active
  unfolding recount fire
  recount-other item newest cells r k st runs ne d =
      elim (Option-cases (find_alert r.key st.active)) [
        | inl h ↦
            (ground (
              arith,
              h,
              eq_bytes_iff r.key k,
              find-fired k (refired item newest cells r) st.active h d,
            ))
        | inr (a, h) ↦ ground (arith, h, find-remove_other r.key k st.active ne)
      ]

  pub recount-run_other :
      (item : Bytes) (newest : ℤ) (cells : List (Cell fl)) (r : Rule F) (k : Bytes)
      (st : ItemState F) (runs : Map ℕ)
      → r.key ≢ k
      → Map.get k (recount fl item newest cells r (st, runs)).1 ≡ Map.get k runs
  unfolding recount
  recount-run_other item newest cells r k st runs ne =
      ground (arith, eq_bytes_iff r.key k, Map.get-put r.key k (run_in cells r) runs)

  recount-none :
      (item : Bytes) (newest : ℤ) (cells : List (Cell fl)) (r : Rule F) (st : ItemState F)
      (runs : Map ℕ)
      → find_alert r.key st.active ≡ none
      → (recount fl item newest cells r (st, runs)).0.active ≡ (
          if leb_ℤ r.minutes (pos (run_in cells r))
          then sort_alerts (st.active ++ refired item newest cells r ∷ [])
          else st.active)
  unfolding recount fire
  recount-none item newest cells r st runs h = ground (arith, h)

  recount-some :
      (item : Bytes) (newest : ℤ) (cells : List (Cell fl)) (r : Rule F) (a : Alert F)
      (st : ItemState F) (runs : Map ℕ)
      → find_alert r.key st.active ≡ some a
      → (recount fl item newest cells r (st, runs)).0.active ≡ (
          if ltb_ℤ (pos (run_in cells r)) r.minutes
          then remove_alert r.key st.active
          else st.active)
  unfolding recount
  recount-some item newest cells r a st runs h = ground (arith, h)

  pub recount-Distinct :
      (item : Bytes) (newest : ℤ) (cells : List (Cell fl)) (r : Rule F) (st : ItemState F)
      (runs : Map ℕ)
      → Distinct st.active
      → Distinct (recount fl item newest cells r (st, runs)).0.active
  recount-Distinct item newest cells r st runs d =
      elim (Option-cases (find_alert r.key st.active)) [
        | inl h ↦
            (rw (recount-none item newest cells r st runs h) (
              Distinct-if (leb_ℤ r.minutes (pos (run_in cells r)))
                (sort_alerts (st.active ++ refired item newest cells r ∷ [])) st.active
                (Distinct-fired (refired item newest cells r) st.active h d) d))
        | inr (a, h) ↦
            (rw (recount-some item newest cells r a st runs h) (
              Distinct-if (ltb_ℤ (pos (run_in cells r)) r.minutes) (remove_alert r.key st.active)
                st.active (Distinct-remove r.key st.active d) d))
      ]
