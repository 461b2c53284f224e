-- ===== src/Stats/Evaluator/Minute.antt =====
-- One call of `onMinute` of pkg/stats/evaluator.go on the two rules in force.
use casa_os_common.Common.{
  ◌≡◌, refl, ◌≢◌, ◌∙◌, sym, ap, Option, none, some, List, [], ◌∷◌, ◌++◌, if◌then◌else◌, Bytes,
}
use mathlib.Core.List.{append-nil}
use casa_os_common.Common.Int.{ℤ, pos, ◌+ℤ◌, eq_ℤ, eq_ℤ_of_ne}
use casa_os_common.Stats.Floats.{Floats}
use casa_os_common.Stats.Rules.{Rule}
use casa_os_common.Stats.Evaluator.Item.{Event, ItemState, judge, judge_all, on_minute_item}
use casa_os_common.Stats.Evaluator.Alerts.{Distinct}
use casa_os_common.Stats.Evaluator.Key.{
  view, key_step, judge-key_step, judge-other, judge-Distinct, judge-kept,
}

module _ {F : Type 0} (fl : Floats F) where
  -- The state that minute `m` is judged in: the runs go on only if `m` is next after the last one.
  abbrev pub restarted : ℤ → ItemState F → ItemState F
  restarted m st = record st { runs = if eq_ℤ m (st.last +ℤ pos 1) then st.runs else [] }

  -- The outcome of `onMinute`: each key is where its own machine goes.
  pub record Judged (item : Bytes) (m : ℤ) (vals : Bytes → Option F) (c d : Rule F)
      (st : ItemState F) : Type 0 where
    pub after : ItemState F
    pub events : List (Event F)
    pub result : on_minute_item fl item m vals (c ∷ d ∷ []) st ≡ some (after, events)
    pub first : view c.key after ≡ (key_step fl item m vals c (view c.key (restarted m st))).0
    pub second : view d.key after ≡ (key_step fl item m vals d (view d.key (restarted m st))).0
    pub events_of :
        events
        ≡ (key_step fl item m vals c (view c.key (restarted m st))).1
          ++ (key_step fl item m vals d (view d.key (restarted m st))).1
    pub last : after.last ≡ m
    pub rules : after.rules ≡ st.rules
    pub distinct : Distinct after.active

  pub judge_both :
      (item : Bytes) (m : ℤ) (vals : Bytes → Option F) (c d : Rule F) (st : ItemState F)
      → c.key ≢ d.key
      → m ≢ st.last
      → Distinct st.active
      → Judged item m vals c d st
  unfolding on_minute_item judge_all
  judge_both item m vals c d st ne new dist =
      let s1 = judge fl item m vals c (restarted m st) in
      let s2 = judge fl item m vals d s1.0 in
      let e1 = judge-key_step fl item m vals c (restarted m st) dist in
      let d1 = judge-Distinct fl item m vals c (restarted m st) dist in
      let e2 = judge-key_step fl item m vals d s1.0 d1 in
      record {
        after = record s2.0 { last = m };
        events = s1.1 ++ (s2.1 ++ []);
        result =
            ap (λ b. if b then none else some (record s2.0 { last = m }, s1.1 ++ (s2.1 ++ [])))
              (eq_ℤ_of_ne m st.last new);
        first = judge-other fl item m vals d c.key s1.0 (λ e. ne (sym e)) d1 ∙ ap (λ p. p.0) e1;
        second =
            ap (λ p. p.0) e2
            ∙ ap (λ s. (key_step fl item m vals d s).0)
                (judge-other fl item m vals c d.key (restarted m st) ne dist);
        events_of =
            ap (λ l. s1.1 ++ l) (append-nil s2.1)
            ∙ ap (λ p. p.1 ++ s2.1) e1
            ∙ ap (λ p. (key_step fl item m vals c (view c.key (restarted m st))).1 ++ p.1) e2
            ∙ ap
                (λ s.
                  (key_step fl item m vals c (view c.key (restarted m st))).1
                  ++ (key_step fl item m vals d s).1)
                (judge-other fl item m vals c d.key (restarted m st) ne dist);
        last = refl;
        rules = judge-kept fl item m vals d s1.0 ∙ judge-kept fl item m vals c (restarted m st);
        distinct = judge-Distinct fl item m vals d s1.0 d1;
      }
