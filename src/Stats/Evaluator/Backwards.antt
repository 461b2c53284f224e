-- ===== src/Stats/Evaluator/Backwards.antt =====
-- `reconcile` of pkg/stats/evaluator.go against the cells of the history, counted from their end.
use casa_os_common.Common.{
  ℕ, zero, suc, ◌-◌, ◌<◌, ◌≡◌, refl, ◌≢◌, ◌⊎◌, inl, inr, ◌∙◌, sym, ap, arith, not, ◌&&◌, Option,
  none, some, List, [], ◌∷◌, ◌++◌, if◌then◌else◌, Bytes, Bool, true, false, ltb, leb, length,
  get_elem?, codes, Bool-cases,
}
use mathlib.Core.Path.{subst}
use mathlib.Core.List.{reverse, reverse_aux}
use casa_os_common.Common.Int.{ℤ, pos, pos_part, ◌+ℤ◌, ◌≤ℤ◌, leb_ℤ, ltb_ℤ, quot, -ℤ_parts, +ℤ_parts}
use casa_os_common.Common.Map
use casa_os_common.Stats.Errors.{ok}
use casa_os_common.Stats.Floats.{Floats}
use casa_os_common.Stats.Rules.{Rule}
use casa_os_common.Stats.Ring.Window.{Cell}
use casa_os_common.Stats.Evaluator.Item.{ItemState, is_none, find_alert}
use casa_os_common.Stats.Evaluator.Alerts.{Distinct}
use casa_os_common.Stats.Evaluator.Reconcile.{History, is_recent, newest_first, reconcile_item}
use casa_os_common.Stats.Evaluator.Agree.{leading, counted, Recounted, recount_two, leading-minutes}

-- The cell at a distance from the newest one, which is the last.
abbrev pub from_end : {A : Type 0} → List A → ℕ → Option A
from_end cells i = let n = length cells in if ltb i n then get_elem? cells (n - 1 - i) else none

ℕ-order : (i n : ℕ) → (i < n) ⊎ ((i ≡ n) ⊎ (n < i))
ℕ-order i n = ground arith

get_elem?-reverse_aux :
    {A : Type 0} (xs r : List A) (i : ℕ)
    → get_elem? (reverse_aux xs r) i
      ≡ (if ltb i (length xs) then from_end xs i else get_elem? r (i - length xs))
get_elem?-reverse_aux [] r i = ground arith
get_elem?-reverse_aux (x ∷ xs) r i =
    let h = get_elem?-reverse_aux xs (x ∷ r) i in
    elim (ℕ-order i (length xs)) [
      | inl lt ↦
          (let e : length xs - i ≡ suc (length xs - 1 - i) = omega (arith, lt) in
            h ∙ ground (arith, lt, e))
      | inr (inl eq) ↦
          (let e : length xs - i ≡ 0 = omega (arith, eq) in
            let f : i - length xs ≡ 0 = omega (arith, eq) in h ∙ ground (arith, eq, e, f))
      | inr (inr gt) ↦
          (let e : i - length xs ≡ suc (i - suc (length xs)) = omega (arith, gt) in
            h ∙ ground (arith, gt, e))
    ]

get_elem?-reverse : {A : Type 0} (xs : List A) (i : ℕ) → get_elem? (reverse xs) i ≡ from_end xs i
get_elem?-reverse xs i = get_elem?-reverse_aux xs [] i ∙ ground arith

module _ {F : Type 0} (fl : Floats F) where
  -- There is a cell with a minute whose average is not below the threshold.
  abbrev pub is_high : Rule F → Option (Cell fl) → Bool
  is_high r none = false
  is_high r (some none) = false
  is_high r (some (some v)) = not (fl.lt v.avg r.threshold)

  -- So are the last `n` cells.
  abbrev pub all_high : Rule F → List (Cell fl) → ℕ → Bool
  all_high r cells zero = true
  all_high r cells (suc n) = all_high r cells n && is_high r (from_end cells n)

  -- The series of the history that a rule is judged by.
  abbrev pub judged_series : Rule F → History fl → List (Cell fl)
  judged_series r hist = elim (Map.get (codes "alert/" ++ r.key) hist) [
    | none ↦ []
    | some cells ↦ cells
  ]

  -- The newest minute is one of the last 3 complete minutes, or a later one, and not the zeroth.
  abbrev pub is_up : ℤ → ℤ → Bool
  is_up now newest = ltb_ℤ (pos 0) newest && leb_ℤ (quot now 60) (newest +ℤ pos 3)

  leading-suc :
      (r : Rule F) (cells : List (Cell fl)) (n : ℕ)
      → leb (suc n) (leading fl r cells)
        ≡ leb n (leading fl r cells) && is_high r (get_elem? cells n)
  leading-suc r [] n = ground arith
  leading-suc r (none ∷ cells) zero = ground arith
  leading-suc r (none ∷ cells) (suc n) = ground arith
  leading-suc r (some v ∷ cells) zero = ground arith
  leading-suc r (some v ∷ cells) (suc n) = ground (arith, leading-suc r cells n)

  leading-reverse :
      (r : Rule F) (cells : List (Cell fl)) (n : ℕ)
      → leb n (leading fl r (reverse cells)) ≡ all_high r cells n
  leading-reverse r cells zero = ground arith
  leading-reverse r cells (suc n) =
      leading-suc r (reverse cells) n
      ∙ ap (λ b. b && is_high r (get_elem? (reverse cells) n)) (leading-reverse r cells n)
      ∙ ap (λ o. all_high r cells n && is_high r o) (get_elem?-reverse cells n)

  both_reversed :
      (o : Option (List (Cell fl)))
      → elim o [ none ↦ [] | some cells ↦ reverse cells ]
        ≡ reverse (elim o [ none ↦ [] | some cells ↦ cells ])
  both_reversed none = refl
  both_reversed (some cells) = refl

  newest_first-judged_series :
      (r : Rule F) (hist : History fl) → newest_first fl r.key hist ≡ reverse (judged_series r hist)
  newest_first-judged_series r hist = both_reversed (Map.get (codes "alert/" ++ r.key) hist)

  is_recent-is_up : (now newest : ℤ) → is_recent fl now newest ≡ is_up now newest
  is_recent-is_up now newest =
      ground (arith, -ℤ_parts (quot now 60) (pos 3), +ℤ_parts newest (pos 3))

  leading-counted :
      (now newest : ℤ) (hist : History fl) (r : Rule F)
      → pos 1 ≤ℤ r.minutes
      → leb (pos_part r.minutes) (leading fl r (counted fl now newest hist r))
        ≡ is_up now newest && all_high r (judged_series r hist) (pos_part r.minutes)
  leading-counted now newest hist r le =
      let n = leading-reverse r (judged_series r hist) (pos_part r.minutes) in
      let f = newest_first-judged_series r hist in
      let u = is_recent-is_up now newest in
      elim (Bool-cases (is_recent fl now newest)) [
        | inl b ↦
            (let e : counted fl now newest hist r ≡ reverse (judged_series r hist) =
                simp (counted, b) f in
              ap (λ l. leb (pos_part r.minutes) (leading fl r l)) e ∙ n ∙ ground (arith, b, u))
        | inr b ↦
            (let e : counted fl now newest hist r ≡ [] = simp (counted, b) refl in
              ap (λ l. leb (pos_part r.minutes) (leading fl r l)) e ∙ ground (arith, b, u))
      ]

  -- For two rules with different keys, of which `r` is one and has at least 1 minute, and a state with no
  -- two alerts of one key: after `reconcile` with a readable history, the alert of `r` is active exactly
  -- when `r` is enabled, the newest committed minute is past 0 and at most 3 behind that of the clock, and
  -- the series of `r` has at least as many cells as `r` has minutes, of which that many at the end hold a
  -- minute whose average is not below the threshold.
  pub reconcile_item-leading :
      (item : Bytes) (now newest : ℤ) (hist : History fl) (c d r : Rule F) (st : ItemState F)
      → c.key ≢ d.key
      → Distinct st.active
      → (r ≡ c) ⊎ (r ≡ d)
      → pos 1 ≤ℤ r.minutes
      → not (
          is_none (
            find_alert r.key
              (reconcile_item fl item now (ok (newest, hist)) (c ∷ d ∷ []) st).0.active))
        ≡ r.enabled && (is_up now newest && all_high r (judged_series r hist) (pos_part r.minutes))
  reconcile_item-leading item now newest hist c d r st ne dist which le =
      let two = recount_two fl item now newest hist c d st ne dist in
      let st' = (reconcile_item fl item now (ok (newest, hist)) (c ∷ d ∷ []) st).0 in
      let rec : Recounted fl now newest hist r st' = (elim which [
        | inl p ↦ subst (λ x. Recounted fl now newest hist x st') (sym p) two.0
        | inr p ↦ subst (λ x. Recounted fl now newest hist x st') (sym p) two.1
      ]) in
      rec.active
      ∙ leading-minutes fl r (counted fl now newest hist r) le
      ∙ ap (λ b. r.enabled && b) (leading-counted now newest hist r le)
