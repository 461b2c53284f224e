-- ===== src/Stats/Evaluator/History.antt =====
-- The alerts of an item of pkg/stats/evaluator.go after any number of minutes without a gap.
use casa_os_common.Common.{
  ℕ, ◌≡◌, refl, ◌≢◌, ◌⊎◌, inl, inr, Bool-cases, ◌∙◌, sym, ap, arith, true, Option, none, some, List,
  [], ◌∷◌, length, min, Bytes,
}
use mathlib.Core.Path.{subst}
use casa_os_common.Common.Int.{
  ℤ, pos, ◌+ℤ◌, ◌-ℤ◌, ◌≤ℤ◌, pos_part, neg_part, eq_ℤ, eq_ℤ_refl, int_laws,
}
use casa_os_common.Common.Map
use casa_os_common.Common.Map.{Map}
use casa_os_common.Stats.Floats.{Floats}
use casa_os_common.Stats.Rules.{Rule}
use casa_os_common.Stats.Evaluator.Item.{
  Event, ItemState, fresh, max_run, is_empty, on_minute_item, find_alert,
}
use casa_os_common.Stats.Evaluator.Machine.{settle}
use casa_os_common.Stats.Evaluator.Alerts.{Distinct}
use casa_os_common.Stats.Evaluator.Key.{view, key_step}
use casa_os_common.Stats.Evaluator.Minute.{restarted, Judged, judge_both}
use casa_os_common.Stats.Evaluator.Run.{
  since_of, state_at, trailing, spec_since, run-trailing, since-trailing,
}

module _ {F : Type 0} (fl : Floats F) (item : Bytes) (c d : Rule F) where
  -- What `put` stores after `onMinute`; the state as it was where the minute is a repeated one.
  abbrev pub stored : ItemState F → Option (ItemState F × List (Event F)) → ItemState F
  stored st none = st
  stored st (some p) = settle p.0

  unfoldable pub next_state : ℤ → (Bytes → Option F) → ItemState F → ItemState F
  next_state m vals st = stored st (on_minute_item fl item m vals (c ∷ d ∷ []) st)

  -- The state of the item at minute `m`, after the minutes of a history, newest first.
  abbrev pub item_at : ℤ → List (Bytes → Option F) → ItemState F
  item_at m [] = fresh
  item_at m (vals ∷ hist) = next_state m vals (item_at (m -ℤ pos 1) hist)

  empty_of_is_empty : (l : Map ℕ) → is_empty l ≡ true → l ≡ []
  empty_of_is_empty [] e = refl
  empty_of_is_empty (x ∷ l) e = ground arith

  settle-view : (k : Bytes) (st : ItemState F) → view k (settle st) ≡ view k st
  unfolding settle
  settle-view k st = ground (arith, empty_of_is_empty st.runs)

  pub settle-Distinct : (st : ItemState F) → Distinct st.active → Distinct (settle st).active
  unfolding settle
  settle-Distinct st dist = elim (Bool-cases (is_empty st.runs)) [
    | inl t ↦ rw t dist
    | inr f ↦ rw f dist
  ]

  -- The last minute is `m`, unless no run counts.
  abbrev pub Current : ℤ → ItemState F → Type 0
  Current m st = (st.last ≡ m) ⊎ ((st.last ≡ pos 0) × (st.runs ≡ []))

  settle-Current : (m : ℤ) (st : ItemState F) → st.last ≡ m → Current m (settle st)
  unfolding settle
  settle-Current m st e = elim (Bool-cases (is_empty st.runs)) [
    | inl t ↦ inr (ground (arith, t), ground (arith, t))
    | inr f ↦ inl (ground (arith, f))
  ]

  eq_ℤ_next : (m l : ℤ) → l ≡ m -ℤ pos 1 → eq_ℤ m (l +ℤ pos 1) ≡ true
  eq_ℤ_next m l e =
      let back : m -ℤ pos 1 +ℤ pos 1 ≡ m = omega int_laws in
      ap (λ n. eq_ℤ m (n +ℤ pos 1)) e ∙ ap (λ n. eq_ℤ m n) back ∙ eq_ℤ_refl m

  restarted_same : (m : ℤ) (st : ItemState F) → Current (m -ℤ pos 1) st → restarted fl m st ≡ st
  restarted_same m st cur = elim cur [
    | inl e ↦ ground (arith, eq_ℤ_next m st.last e)
    | inr (z, e) ↦ ground (arith, e)
  ]

  pub record Tracks (m : ℤ) (hist : List (Bytes → Option F)) (st : ItemState F) : Type 0 where
    pub first : view c.key st ≡ state_at fl item c m hist
    pub second : view d.key st ≡ state_at fl item d m hist
    pub current : Current m st
    pub distinct : Distinct st.active

  pub next_of :
      (m : ℤ) (vals : Bytes → Option F) (st : ItemState F) (j : Judged fl item m vals c d st)
      → next_state m vals st ≡ settle j.after
  unfolding next_state
  next_of m vals st j = ap (λ o. stored st o) j.result

  new_minute : (m : ℤ) (st : ItemState F) → pos 1 ≤ℤ m → Current (m -ℤ pos 1) st → m ≢ st.last
  new_minute m st le cur e = elim cur [
    | inl q ↦
        (let w : m ≡ m -ℤ pos 1 = e ∙ q in
          let a = ap pos_part w in let b = ap neg_part w in omega int_laws)
    | inr (z, n) ↦ (let a = ap pos_part (e ∙ z) in let b = ap neg_part (e ∙ z) in omega arith)
  ]

  next-Tracks :
      c.key ≢ d.key
      → (m : ℤ) (vals : Bytes → Option F) (hist : List (Bytes → Option F)) (st : ItemState F)
      → pos 1 ≤ℤ m
      → Tracks (m -ℤ pos 1) hist st
      → Tracks m (vals ∷ hist) (next_state m vals st)
  next-Tracks ne m vals hist st le t =
      let j = judge_both fl item m vals c d st ne (new_minute m st le t.current) t.distinct in
      let re = restarted_same m st t.current in
      let goes : (k : Bytes) → view k (next_state m vals st) ≡ view k j.after =
        λ k. ap (λ s. view k s) (next_of m vals st j) ∙ settle-view k j.after in
      record {
        first =
            goes c.key
            ∙ j.first
            ∙ ap (λ s. (key_step fl item m vals c (view c.key s)).0) re
            ∙ ap (λ s. (key_step fl item m vals c s).0) t.first;
        second =
            goes d.key
            ∙ j.second
            ∙ ap (λ s. (key_step fl item m vals d (view d.key s)).0) re
            ∙ ap (λ s. (key_step fl item m vals d s).0) t.second;
        current = rw (next_of m vals st j) (settle-Current m j.after j.last);
        distinct = rw (next_of m vals st j) (settle-Distinct j.after j.distinct);
      }

  item_at-Tracks :
      c.key ≢ d.key
      → (m : ℤ) (hist : List (Bytes → Option F)) → pos (length hist) ≤ℤ m
      → Tracks m hist (item_at m hist)
  unfolding Map.get find_alert
  item_at-Tracks ne m [] le = record {
    first = refl;
    second = refl;
    current = inr (refl, refl);
    distinct = tt;
  }
  item_at-Tracks ne m (vals ∷ hist) le =
      next-Tracks ne m vals hist (item_at (m -ℤ pos 1) hist) (omega arith)
        (item_at-Tracks ne (m -ℤ pos 1) hist (omega int_laws))

  -- For two rules with different keys, the minutes of a history without a gap, each at or after minute
  -- 1, come into an item without state. Afterwards, for each of the rules with 1 to 120 minutes: its
  -- run is the number of high minutes since the last one that was not, or 120 if that is less; and its
  -- alert is active exactly when that number reaches the minutes of the rule, since the first of
  -- those high minutes.
  pub item_at-since :
      c.key ≢ d.key
      → (m : ℤ) (hist : List (Bytes → Option F)) → pos (length hist) ≤ℤ m
      → (r : Rule F) → (r ≡ c) ⊎ (r ≡ d)
      → pos 1 ≤ℤ r.minutes
      → r.minutes ≤ℤ pos 120
      → ((view r.key (item_at m hist)).run ≡ min (trailing fl item r hist) max_run)
        × (since_of (view r.key (item_at m hist)).alert
            ≡ spec_since fl item r m (trailing fl item r hist))
  item_at-since ne m hist le r which lo hi =
      let t = item_at-Tracks ne m hist le in
      let e : view r.key (item_at m hist) ≡ state_at fl item r m hist = (elim which [
        | inl p ↦
            subst (λ x. view x.key (item_at m hist) ≡ state_at fl item x m hist) (sym p) t.first
        | inr p ↦
            subst (λ x. view x.key (item_at m hist) ≡ state_at fl item x m hist) (sym p) t.second
      ]) in
      (
        ap (λ s. s.run) e ∙ run-trailing fl item r m hist,
        ap (λ s. since_of s.alert) e ∙ since-trailing fl item r lo hi m hist,
      )
