-- ===== src/Stats/Evaluator/Kept.antt =====
-- Every operation of an evaluator keeps what holds of its state (pkg/stats/evaluator.go).
use casa_os_common.Common.{
  map, ◌≡◌, ◌∙◌, sym, ap, arith, Bool, true, false, Option, none, some, List, [], ◌∷◌,
  if◌then◌else◌, inl, inr, Option-cases, Bytes, eq_bytes, eq_bytes_iff,
}
use mathlib.Core.Path.{subst}
use casa_os_common.Common.Int.{ℤ}
use casa_os_common.Common.Map
use casa_os_common.Common.Map.{Map}
use casa_os_common.Stats.Errors.{Err, Result}
use casa_os_common.Stats.Floats.{Floats}
use casa_os_common.Stats.Rules.{Rule, contains, default_rules}
use casa_os_common.Stats.Evaluator.Item.{Event, ItemState, fresh}
use casa_os_common.Stats.Evaluator.Machine.{
  Evaluator, state_of, settle, put_item, rules_of, override_all, resolve, prune, kept_items, ended,
}
use casa_os_common.Stats.Evaluator.Put.{save-items, state_of-put_item}
use casa_os_common.Stats.Evaluator.Reconcile.{History, reconcile_item}
use casa_os_common.Stats.Evaluator.Settings.{eq_rules, reconcile, replace_rules}
use casa_os_common.Stats.Evaluator.InForce.{AllKnown, rules_of-Two, override_all-Two}
use casa_os_common.Stats.Evaluator.Invariant.{IsSound, IsWell, IsSound-if}
use casa_os_common.Stats.Evaluator.Sound.{settle-IsSound, reconcile_item-IsSound, put-IsWell}

module _ {F : Type 0} (fl : Floats F) (marshal : Map (ItemState F) → Result Bytes)
    (write : Bytes → Option Err) where
  put_item-IsWell :
      (i : Bytes) (st : ItemState F) (e : Evaluator F)
      → IsWell e
      → IsSound st
      → IsWell (put_item fl marshal write i st e)
  put_item-IsWell i st e w s = record {
    sound = λ j.
        subst (λ t. IsSound t) (sym (state_of-put_item fl marshal write i j st e))
          (IsSound-if (eq_bytes i j) (settle st) (state_of j e) (settle-IsSound st s) (w.sound j));
  }

  -- A call that does not panic, and leads to such a state again.
  abbrev pub Goes : Option (Evaluator F × List (Event F)) → Type 0
  Goes o = (p : Evaluator F × List (Event F)) × (o ≡ some p) × IsWell p.0

  reconcile_two :
      (item : Bytes) (now : ℤ) (recent : Result (ℤ × History fl)) (st : ItemState F)
      (e : Evaluator F) (c d : Rule F)
      → rules_of fl item e ≡ some (c ∷ d ∷ [])
      → reconcile fl marshal write item now recent st e
        ≡ some (
          put_item fl marshal write item (reconcile_item fl item now recent (c ∷ d ∷ []) st).0 e,
          (reconcile_item fl item now recent (c ∷ d ∷ []) st).1,
        )
  unfolding reconcile
  reconcile_two item now recent st e c d two = ground (arith, two)

  pub reconcile-Goes :
      (item : Bytes) (now : ℤ) (recent : Result (ℤ × History fl)) (st : ItemState F)
      (e : Evaluator F)
      → IsWell e
      → IsSound st
      → Goes (reconcile fl marshal write item now recent st e)
  reconcile-Goes item now recent st e w s =
      let two = rules_of-Two fl item e (w.sound item).0 in
      let rules = two.cpu ∷ two.mem ∷ [] in
      let q = reconcile_item fl item now recent rules st in
      (
        (put_item fl marshal write item q.0 e, q.1),
        reconcile_two item now recent st e two.cpu two.mem two.both,
        put_item-IsWell item q.0 e w (reconcile_item-IsSound fl item now recent rules st s),
      )

  -- The rules that SetRules keeps.
  kept_rules-AllKnown : (b : Bool) (l : List (Rule F)) → AllKnown l → AllKnown (if b then [] else l)
  kept_rules-AllKnown true l k = tt
  kept_rules-AllKnown false l k = k

  -- The state that SetRules puts before it reconciles.
  abbrev with_rules : Bytes → Rule F → Rule F → Evaluator F → ItemState F
  with_rules item c d e =
      let m = c ∷ d ∷ [] in
      let st = state_of item e in
      record st { rules = if eq_rules fl m (default_rules fl) then [] else m }

  replace_rules_two :
      (item : Bytes) (rules : List (Rule F)) (now : ℤ) (recent : Result (ℤ × History fl))
      (e : Evaluator F) (a b c d : Rule F)
      → rules_of fl item e ≡ some (a ∷ b ∷ [])
      → override_all rules (a ∷ b ∷ []) ≡ some (c ∷ d ∷ [])
      → replace_rules fl marshal write item rules now recent e
        ≡ reconcile fl marshal write item now recent
            (with_rules item c d e)
            (record e { items = Map.put item (with_rules item c d e) e.items })
  unfolding replace_rules
  replace_rules_two item rules now recent e a b c d two merged = ground (arith, two, merged)

  pub replace_rules-Goes :
      (item : Bytes) (rules : List (Rule F)) (now : ℤ) (recent : Result (ℤ × History fl))
      (e : Evaluator F)
      → IsWell e
      → AllKnown rules
      → Goes (replace_rules fl marshal write item rules now recent e)
  replace_rules-Goes item rules now recent e w known =
      let two = rules_of-Two fl item e (w.sound item).0 in
      let merged = override_all-Two rules two.cpu two.mem known two.cpu_key two.mem_key in
      let m = merged.cpu ∷ merged.mem ∷ [] in
      let st' = with_rules item merged.cpu merged.mem e in
      let s : IsSound st' = (
        kept_rules-AllKnown (eq_rules fl m (default_rules fl)) m
            (inl merged.cpu_key, (inr merged.mem_key, tt)),
        (w.sound item).1,
      ) in
      let (p, q, w') =
        reconcile-Goes item now recent st' (record e { items = Map.put item st' e.items })
          (put-IsWell item st' e w s) s in
      (
        p,
        replace_rules_two item rules now recent e two.cpu two.mem merged.cpu merged.mem two.both
              merged.both
            ∙ q,
        w',
      )

  resolve-none :
      (item : Bytes) (e : Evaluator F)
      → Map.get item e.items ≡ none
      → resolve fl marshal write item e ≡ (e, [])
  unfolding resolve
  resolve-none item e h = ground (arith, h)

  resolve-some :
      (item : Bytes) (e : Evaluator F) (st : ItemState F)
      → Map.get item e.items ≡ some st
      → resolve fl marshal write item e ≡ (
        put_item fl marshal write item (record st { active = []; runs = [] }) e,
        map (ended fl marshal write item) st.active,
      )
  unfolding resolve
  resolve-some item e st h = ground (arith, h)

  pub resolve-IsWell :
      (item : Bytes) (e : Evaluator F) → IsWell e → IsWell (resolve fl marshal write item e).0
  resolve-IsWell item e w = elim (Option-cases (Map.get item e.items)) [
    | inl h ↦ subst (λ q. IsWell q.0) (sym (resolve-none item e h)) w
    | inr (st, h) ↦
        (let same : state_of item e ≡ st = ground (arith, h) in
          let k : AllKnown st.rules = subst (λ t. AllKnown t.rules) same (w.sound item).0 in
          subst (λ q. IsWell q.0) (sym (resolve-some item e st h))
            (put_item-IsWell item (record st { active = []; runs = [] }) e w (k, tt)))
  ]

  get-kept_items :
      (keep : List Bytes) (j : Bytes) (m : Map (ItemState F))
      → Map.get j (kept_items fl marshal write keep m)
        ≡ (if contains keep j then Map.get j m else none)
  unfolding Map.get
  get-kept_items keep j [] = ground arith
  get-kept_items keep j ((k, st) ∷ m) = ground (arith, eq_bytes_iff k j, get-kept_items keep j m)

  -- An item that Prune keeps has its state, and any other is as a new one.
  state_of-prune :
      (keep : List Bytes) (j : Bytes) (e : Evaluator F)
      → state_of j (prune fl marshal write keep e)
        ≡ (if contains keep j then state_of j e else fresh)
  unfolding prune
  state_of-prune keep j e =
      let q = get-kept_items keep j e.items in
      let r =
        save-items fl marshal write
          (record e { items = kept_items fl marshal write keep e.items }) in
      ground (arith, q, ap (λ m. Map.get j m) r)

  pub prune-IsWell :
      (keep : List Bytes) (e : Evaluator F) → IsWell e → IsWell (prune fl marshal write keep e)
  prune-IsWell keep e w = record {
    sound = λ j.
        subst (λ t. IsSound t) (sym (state_of-prune keep j e))
          (IsSound-if (contains keep j) (state_of j e) fresh (w.sound j) (tt, tt));
  }
