-- ===== src/Stats/Evaluator/Run.antt =====
-- When an alert of pkg/stats/evaluator.go is active, in terms of the minutes that came in.
use casa_os_common.Common.{
  ℕ, suc, ◌+◌, ◌≡◌, refl, arith, true, false, ◌&&◌, Option, none, some, List, [], ◌∷◌,
  if◌then◌else◌, min, Bytes, Option-cases, inl, inr,
}
use casa_os_common.Common.Int.{ℤ, pos, ◌+ℤ◌, ◌-ℤ◌, ◌*ℤ◌, ◌≤ℤ◌, leb_ℤ, int_laws}
use casa_os_common.Stats.Floats.{Floats}
use casa_os_common.Stats.Rules.{Rule}
use casa_os_common.Stats.Evaluator.Item.{Alert, max_run, is_none, high_value}
use casa_os_common.Stats.Evaluator.Key.{KeyState, key_step, fired}

abbrev pub since_of : {F : Type 0} → Option (Alert F) → Option ℤ
since_of none = none
since_of (some a) = some a.since

module _ {F : Type 0} (fl : Floats F) (item : Bytes) (r : Rule F) where
  -- The state of a key at minute `m`, after the minutes of a history, newest first.
  abbrev pub state_at : ℤ → List (Bytes → Option F) → KeyState F
  state_at m [] = record { run = 0; alert = none }
  state_at m (vals ∷ hist) = (key_step fl item m vals r (state_at (m -ℤ pos 1) hist)).0

  -- The number of high minutes since the last one that was not.
  abbrev pub trailing : List (Bytes → Option F) → ℕ
  trailing [] = 0
  trailing (vals ∷ hist) = elim (high_value fl vals r) [ none ↦ 0 | some v ↦ suc (trailing hist) ]

  abbrev pub spec_since : ℤ → ℕ → Option ℤ
  spec_since m t = if leb_ℤ r.minutes (pos t) then some ((m -ℤ pos t +ℤ pos 1) *ℤ pos 60) else none

  pub run-trailing :
      (m : ℤ) (hist : List (Bytes → Option F)) → (state_at m hist).run ≡ min (trailing hist) max_run
  run-trailing m [] = refl
  run-trailing m (vals ∷ hist) = elim (Option-cases (high_value fl vals r)) [
    | inl h ↦ ground (arith, h)
    | inr (v, h) ↦ ground (arith, h, run-trailing (m -ℤ pos 1) hist)
  ]

  one_more : (m : ℤ) (t : ℕ) → m -ℤ pos 1 -ℤ pos t +ℤ pos 1 ≡ m -ℤ pos (suc t) +ℤ pos 1
  one_more m t = omega int_laws

  abbrev pub after_high : ℤ → F → KeyState F → Option (Alert F)
  after_high m v s =
      let n = min (s.run + 1) max_run in
      if leb_ℤ r.minutes (pos n) && is_none s.alert then some (fired item m v r.key n) else s.alert

  since-high :
      pos 1 ≤ℤ r.minutes
      → r.minutes ≤ℤ pos 120
      → (m : ℤ) (t : ℕ) (v : F) (s : KeyState F) → s.run ≡ min t max_run
      → since_of s.alert ≡ spec_since (m -ℤ pos 1) t
      → since_of (after_high m v s) ≡ spec_since m (suc t)
  since-high lo hi m t v s run since = elim (Option-cases s.alert) [
    | inl h ↦
        let short : leb_ℤ r.minutes (pos t) ≡ false = ground (arith, h) in
        let len : min (s.run + 1) max_run ≡ suc t = ground arith in ground (arith, h, len)
    | inr (a, h) ↦
        let long : leb_ℤ r.minutes (pos t) ≡ true = ground (arith, h) in
        let longer : leb_ℤ r.minutes (pos (suc t)) ≡ true = ground arith in
        ground (arith, h, one_more m t)
  ]

  pub since-trailing :
      pos 1 ≤ℤ r.minutes
      → r.minutes ≤ℤ pos 120
      → (m : ℤ) (hist : List (Bytes → Option F))
      → since_of (state_at m hist).alert ≡ spec_since m (trailing hist)
  since-trailing lo hi m [] = ground arith
  since-trailing lo hi m (vals ∷ hist) =
      let ih = since-trailing lo hi (m -ℤ pos 1) hist in
      let run = run-trailing (m -ℤ pos 1) hist in
      elim (Option-cases (high_value fl vals r)) [
        | inl h ↦ ground (arith, h)
        | inr (v, h) ↦
            ground
              (arith, h, since-high lo hi m (trailing hist) v (state_at (m -ℤ pos 1) hist) run ih)
      ]
