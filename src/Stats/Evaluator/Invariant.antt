-- ===== src/Stats/Evaluator/Invariant.antt =====
-- What holds of the state of an evaluator (pkg/stats/evaluator.go) between two operations.
use casa_os_common.Common.{
  ◌≡◌, ◌≢◌, ◌∙◌, sym, ap, arith, Bool, true, false, Option, some, List, if◌then◌else◌, inl, inr,
  Bool-cases, Bytes, eq_bytes, eq_bytes_iff,
}
use mathlib.Core.Path.{subst}
use casa_os_common.Common.Int.{ℤ, eq_ℤ, eq_ℤ_refl}
use casa_os_common.Common.Map.{Map}
use casa_os_common.Stats.Errors.{Err, Result}
use casa_os_common.Stats.Floats.{Floats}
use casa_os_common.Stats.Rules.{Rule, cpu_high, mem_high}
use casa_os_common.Stats.Evaluator.Item.{Event, ItemState, on_minute_item}
use casa_os_common.Stats.Evaluator.Alerts.{Distinct}
use casa_os_common.Stats.Evaluator.Machine.{Evaluator, state_of, settle, on_minute}
use casa_os_common.Stats.Evaluator.Minute.{judge_both}
use casa_os_common.Stats.Evaluator.History.{next_state, next_of, settle-Distinct}
use casa_os_common.Stats.Evaluator.Isolation.{on_minute-state_of}
use casa_os_common.Stats.Evaluator.InForce.{AllKnown, keys_differ, rules_of-Two}

module _ {F : Type 0} where
  -- Known keys in the rules, and no key with two alerts.
  abbrev pub IsSound : ItemState F → Type 0
  IsSound st = AllKnown st.rules × Distinct st.active

  pub record IsWell (e : Evaluator F) : Type 0 where
    pub sound : (j : Bytes) → IsSound (state_of j e)

  pub settle-rules : (st : ItemState F) → (settle st).rules ≡ st.rules
  unfolding settle
  settle-rules st = ground arith

  pub IsSound-if :
      (b : Bool) (s t : ItemState F) → IsSound s → IsSound t → IsSound (if b then s else t)
  IsSound-if true s t p q = p
  IsSound-if false s t p q = q

module _ {F : Type 0} (fl : Floats F) where
  next_state_again :
      (item : Bytes) (m : ℤ) (vals : Bytes → Option F) (c d : Rule F) (st : ItemState F)
      → eq_ℤ m st.last ≡ true
      → next_state fl item c d m vals st ≡ st
  unfolding next_state on_minute_item
  next_state_again item m vals c d st h = ground (arith, h)

  next_state-IsSound :
      (item : Bytes) (m : ℤ) (vals : Bytes → Option F) (c d : Rule F) (st : ItemState F)
      → c.key ≢ d.key
      → IsSound st
      → IsSound (next_state fl item c d m vals st)
  next_state-IsSound item m vals c d st ne (k, dist) = elim (Bool-cases (eq_ℤ m st.last)) [
    | inl h ↦ rw (next_state_again item m vals c d st h) (k, dist)
    | inr h ↦
        (let new : m ≢ st.last = λ e.
            let t : eq_ℤ m st.last ≡ true = ap (λ z. eq_ℤ m z) (sym e) ∙ eq_ℤ_refl m in
            ground arith in
          let j = judge_both fl item m vals c d st ne new dist in
          rw (next_of fl item c d m vals st j) (
            subst (λ l. AllKnown l) (sym (settle-rules j.after ∙ j.rules)) k,
            settle-Distinct fl item c d j.after j.distinct,
          ))
  ]

module _ {F : Type 0} (fl : Floats F) (marshal : Map (ItemState F) → Result Bytes)
    (write : Bytes → Option Err) where
  -- From a state where every item has known keys in its rules and no key with two alerts, `onMinute`
  -- does not panic, and leads to such a state.
  pub on_minute-IsWell :
      (item : Bytes) (m : ℤ) (vals : Bytes → Option F) (e : Evaluator F)
      → IsWell e
      → (p : Evaluator F × List (Event F)) × (on_minute fl marshal write item m vals e ≡ some p)
        × IsWell p.0
  on_minute-IsWell item m vals e well =
      let two = rules_of-Two fl item e (well.sound item).0 in
      let ne : two.cpu.key ≢ two.mem.key = λ q.
        let a = (eq_bytes_iff cpu_high mem_high).1 (sym two.cpu_key ∙ q ∙ two.mem_key) in
        let b = keys_differ in ground (arith, a, b) in
      let (p, done, states) =
        on_minute-state_of fl marshal write item m vals two.cpu two.mem e two.both in
      (
        p,
        done,
        record {
          sound = λ j. rw (states j) (
              IsSound-if (eq_bytes item j)
                (next_state fl item two.cpu two.mem m vals (state_of item e)) (state_of j e)
                (next_state-IsSound fl item m vals two.cpu two.mem (state_of item e) ne
                  (well.sound item))
                (well.sound j));
        },
      )
