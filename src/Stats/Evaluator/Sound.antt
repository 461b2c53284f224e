-- ===== src/Stats/Evaluator/Sound.antt =====
-- Known keys and distinct alerts under the parts of the operations (pkg/stats/evaluator.go).
use casa_os_common.Common.{
  ℕ, ◌≡◌, sym, arith, Bool, List, [], ◌∷◌, ◌++◌, if◌then◌else◌, Bytes, eq_bytes,
}
use mathlib.Core.Path.{subst}
use casa_os_common.Common.Int.{ℤ}
use casa_os_common.Common.Map
use casa_os_common.Common.Map.{Map}
use casa_os_common.Stats.Ring.Window.{Cell}
use casa_os_common.Stats.Errors.{Result, ok, err}
use casa_os_common.Stats.Floats.{Floats}
use casa_os_common.Stats.Rules.{Rule}
use casa_os_common.Stats.Rules.Valid.{AllValid}
use casa_os_common.Stats.Evaluator.Item.{fire, ItemState}
use casa_os_common.Stats.Evaluator.Alerts.{Distinct}
use casa_os_common.Stats.Evaluator.Machine.{Evaluator, state_of, settle}
use casa_os_common.Stats.Evaluator.Reconcile.{
  History, recount, recount_all, reconcile_item, is_recent, newest_first,
}
use casa_os_common.Stats.Evaluator.Recount.{recount-Distinct}
use casa_os_common.Stats.Evaluator.InForce.{AllKnown}
use casa_os_common.Stats.Evaluator.Invariant.{IsSound, IsWell, IsSound-if, settle-rules}

module _ {F : Type 0} where
  settle-active : (st : ItemState F) → (settle st).active ≡ st.active
  unfolding settle
  settle-active st = ground arith

  pub settle-IsSound : (st : ItemState F) → IsSound st → IsSound (settle st)
  settle-IsSound st (k, d) = (
    subst (λ l. AllKnown l) (sym (settle-rules st)) k,
    subst (λ l. Distinct l) (sym (settle-active st)) d,
  )

  -- The state of an item that was put into the map.
  state_of-put :
      (i j : Bytes) (st : ItemState F) (e : Evaluator F)
      → state_of j (record e { items = Map.put i st e.items })
        ≡ (if eq_bytes i j then st else state_of j e)
  state_of-put i j st e = ground (arith, Map.get-put i j st e.items)

  pub put-IsWell :
      (i : Bytes) (st : ItemState F) (e : Evaluator F)
      → IsWell e
      → IsSound st
      → IsWell (record e { items = Map.put i st e.items })
  put-IsWell i st e w s = record {
    sound = λ j.
        subst (λ t. IsSound t) (sym (state_of-put i j st e))
          (IsSound-if (eq_bytes i j) st (state_of j e) s (w.sound j));
  }

  pub AllValid-AllKnown :
      (fl : Floats F) (seen : List Bytes) (rs : List (Rule F)) → AllValid fl seen rs → AllKnown rs
  AllValid-AllKnown fl seen [] v = tt
  AllValid-AllKnown fl seen (r ∷ rs) (f, a, v) =
      (f.known, AllValid-AllKnown fl (seen ++ r.key ∷ []) rs v)

module _ {F : Type 0} (fl : Floats F) where
  recount-rules :
      (item : Bytes) (newest : ℤ) (cells : List (Cell fl)) (r : Rule F) (st : ItemState F)
      (runs : Map ℕ)
      → (recount fl item newest cells r (st, runs)).0.rules ≡ st.rules
  unfolding recount fire
  recount-rules item newest cells r st runs = ground arith

  recount_all-IsSound :
      (item : Bytes) (newest : ℤ) (new : Bool) (hist : History fl) (rs : List (Rule F))
      (st : ItemState F) (runs : Map ℕ)
      → IsSound st
      → IsSound (recount_all fl item newest new hist rs (st, runs)).0
  unfolding recount_all
  recount_all-IsSound item newest new hist [] st runs s = s
  recount_all-IsSound item newest new hist (r ∷ rs) st runs (k, d) =
      let cells = if new then newest_first fl r.key hist else [] in
      let q = recount fl item newest cells r (st, runs) in
      recount_all-IsSound item newest new hist rs q.0 q.1 (
        subst (λ l. AllKnown l) (sym (recount-rules item newest cells r st runs)) k,
        recount-Distinct fl item newest cells r st runs d,
      )

  pub reconcile_item-IsSound :
      (item : Bytes) (now : ℤ) (recent : Result (ℤ × History fl)) (rs : List (Rule F))
      (st : ItemState F)
      → IsSound st
      → IsSound (reconcile_item fl item now recent rs st).0
  unfolding reconcile_item
  reconcile_item-IsSound item now (err x) rs st s = s
  reconcile_item-IsSound item now (ok (newest, hist)) rs st s =
      recount_all-IsSound item newest (is_recent fl now newest) hist rs st [] s
