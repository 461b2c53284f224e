-- ===== src/Stats/Evaluator/Put.antt =====
-- `put` of pkg/stats/evaluator.go: dropping an idle item loses nothing.
use casa_os_common.Common.{
  ◌≡◌, refl, ◌∙◌, ap, arith, true, Option, none, some, List, [], ◌∷◌, if◌then◌else◌, inl, inr,
  Bool-cases, Bytes, eq_bytes, eq_bytes_iff,
}
use casa_os_common.Common.Map
use casa_os_common.Common.Map.{Map}
use casa_os_common.Stats.Errors.{Err, Result, ok, Result-cases}
use casa_os_common.Stats.Floats.{Floats}
use casa_os_common.Stats.Evaluator.Item.{ItemState, fresh, is_empty, is_idle}
use casa_os_common.Stats.Evaluator.Machine.{Evaluator, state_of, settle, save, put_item}

module _ {F : Type 0} (fl : Floats F) (marshal : Map (ItemState F) → Result Bytes)
    (write : Bytes → Option Err) where
  pub save-items : (e : Evaluator F) → (save fl marshal write e).items ≡ e.items
  unfolding save
  save-items e = ground arith

  -- Once `save` leaves no error, the file holds the state: `LastError` is nil only then.
  save-saved :
      (e : Evaluator F)
      → (save fl marshal write e).save_err ≡ none
      → marshal (save fl marshal write e).items ≡ ok (save fl marshal write e).saved
  unfolding save
  save-saved e h = elim (Result-cases (marshal e.items)) [
    | inl (b, m) ↦ ground (arith, m, eq_bytes_iff b e.saved)
    | inr (x, m) ↦ ground (arith, m)
  ]

  nil_of_is_empty : {A : Type 0} (l : List A) → is_empty l ≡ true → l ≡ []
  nil_of_is_empty [] p = refl
  nil_of_is_empty (x ∷ l) p = ground arith

  idle_fresh : (st : ItemState F) → is_idle (settle st) ≡ true → settle st ≡ fresh
  unfolding is_idle settle
  idle_fresh st h =
      ground (arith, nil_of_is_empty st.rules, nil_of_is_empty st.active, nil_of_is_empty st.runs)

  items_after : Bytes → ItemState F → Map (ItemState F) → Map (ItemState F)
  items_after i s m = if is_idle s then Map.del i m else Map.put i s m

  get-items_after :
      (i j : Bytes) (s : ItemState F) (m : Map (ItemState F))
      → Map.get j (items_after i s m)
        ≡ (if eq_bytes i j then if is_idle s then none else some s else Map.get j m)
  unfolding items_after
  get-items_after i j s m = ground (arith, Map.get-del i j m, Map.get-put i j s m)

  put_item-items :
      (i : Bytes) (st : ItemState F) (e : Evaluator F)
      → (put_item fl marshal write i st e).items ≡ items_after i (settle st) e.items
  unfolding put_item items_after
  put_item-items i st e = save-items (record e {
    items = if is_idle (settle st) then Map.del i e.items else Map.put i (settle st) e.items;
  })

  -- After `put`, the state of the item is the given one, settled, and that of every other item is as
  -- it was, whatever the write of the file does.
  pub state_of-put_item :
      (i j : Bytes) (st : ItemState F) (e : Evaluator F)
      → state_of j (put_item fl marshal write i st e)
        ≡ (if eq_bytes i j then settle st else state_of j e)
  state_of-put_item i j st e =
      let s = settle st in
      let g = ap (λ m. Map.get j m) (put_item-items i st e) ∙ get-items_after i j s e.items in
      elim (Bool-cases (is_idle s)) [
        | inl h ↦ ground (arith, g, h, idle_fresh st h)
        | inr h ↦ ground (arith, g, h)
      ]
