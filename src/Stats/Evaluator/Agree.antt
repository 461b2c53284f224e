-- ===== src/Stats/Evaluator/Agree.antt =====
-- `reconcile` of pkg/stats/evaluator.go against the history of the item.
use casa_os_common.Common.{
  leb, ℕ, suc, ◌+◌, ◌≡◌, refl, ◌≢◌, ◌∙◌, sym, ap, arith, not, ◌&&◌, Option, none, some, List, [],
  ◌∷◌, if◌then◌else◌, min, Bytes,
}
use casa_os_common.Common.Int.{ℤ, pos, pos_part, ◌≤ℤ◌, leb_ℤ}
use casa_os_common.Common.Map
use casa_os_common.Common.Map.{Map}
use casa_os_common.Stats.Errors.{ok}
use casa_os_common.Stats.Floats.{Floats}
use casa_os_common.Stats.Rules.{Rule}
use casa_os_common.Stats.Ring.Window.{Cell}
use casa_os_common.Stats.Evaluator.Item.{ItemState, is_none, run_of, find_alert}
use casa_os_common.Stats.Evaluator.Alerts.{Distinct}
use casa_os_common.Stats.Evaluator.Reconcile.{
  History, newest_first, count_high, recount, recount_all, is_recent, reconcile_item,
}
use casa_os_common.Stats.Evaluator.Recount.{
  run_in, recount-run, recount-active, recount-other, recount-run_other, recount-Distinct,
}

abbrev run_from : Option ℕ → ℕ
run_from none = 0
run_from (some n) = n

module _ {F : Type 0} (fl : Floats F) where
  -- The number of high minutes before the newest one that is not.
  abbrev pub leading : Rule F → List (Cell fl) → ℕ
  leading r [] = 0
  leading r (none ∷ cells) = 0
  leading r (some v ∷ cells) =
      let rest = leading r cells in if not (fl.lt v.avg r.threshold) then suc rest else 0

  count_high-leading :
      (r : Rule F) (n : ℕ) (cells : List (Cell fl))
      → pos n ≤ℤ r.minutes
      → count_high fl r n cells ≡ min (n + leading r cells) (pos_part r.minutes)
  unfolding count_high
  count_high-leading r n [] le = omega arith
  count_high-leading r n (none ∷ cells) le = omega arith
  count_high-leading r n (some v ∷ cells) le = ground (arith, count_high-leading r (suc n) cells)

  -- The cells that `reconcile` counts for a rule.
  abbrev pub counted : ℤ → ℤ → History fl → Rule F → List (Cell fl)
  counted now newest hist r = if is_recent fl now newest then newest_first fl r.key hist else []

  pub record Recounted (now newest : ℤ) (hist : History fl) (r : Rule F) (st : ItemState F)
      : Type 0 where
    pub run : run_of r.key st.runs ≡ run_in fl (counted now newest hist r) r
    pub active :
        not (is_none (find_alert r.key st.active))
        ≡ leb_ℤ r.minutes (pos (run_in fl (counted now newest hist r) r))

  pub recount_two :
      (item : Bytes) (now newest : ℤ) (hist : History fl) (c d : Rule F) (st : ItemState F)
      → c.key ≢ d.key
      → Distinct st.active
      → (let st' = (reconcile_item fl item now (ok (newest, hist)) (c ∷ d ∷ []) st).0 in
          Recounted now newest hist c st' × Recounted now newest hist d st')
  unfolding reconcile_item recount_all Map.get
  recount_two item now newest hist c d st ne dist =
      let p = recount fl item newest (counted now newest hist c) c (st, []) in
      let d1 = recount-Distinct fl item newest (counted now newest hist c) c st [] dist in
      let swap : d.key ≢ c.key = λ e. ne (sym e) in
      let o = recount-run_other fl item newest (counted now newest hist d) d c.key p.0 p.1 swap in
      let rc = recount-run fl item newest (counted now newest hist c) c st [] refl in
      let other =
        recount-other fl item newest (counted now newest hist d) d c.key p.0 p.1 swap d1 in
      let ac = recount-active fl item newest (counted now newest hist c) c st [] dist in
      (
        record { run = ap (λ o. run_from o) o ∙ rc; active = ap (λ o. not (is_none o)) other ∙ ac },
        record {
          run =
              recount-run fl item newest (counted now newest hist d) d p.0 p.1
                (recount-run_other fl item newest (counted now newest hist c) c d.key st [] ne);
          active = recount-active fl item newest (counted now newest hist d) d p.0 p.1 d1;
        },
      )

  pub leading-minutes :
      (r : Rule F) (cells : List (Cell fl))
      → pos 1 ≤ℤ r.minutes
      → leb_ℤ r.minutes (pos (run_in fl cells r))
        ≡ r.enabled && leb (pos_part r.minutes) (leading r cells)
  leading-minutes r cells le =
      let c = count_high-leading r 0 cells (omega arith) in ground (arith, c)
