-- ===== src/Stats/Store/Minutes.antt =====
-- The minutes that `record` of pkg/stats/store.go commits.
use casa_os_common.Common.{
  ◌≡◌, refl, sym, arith, true, false, Option, none, some, List, [], ◌∷◌, inl, inr, Bool-cases,
  Option-cases,
}
use mathlib.Core.Path.{subst}
use casa_os_common.Common.Int.{ℤ, ltb_ℤ, quot}
use casa_os_common.Common.Map.{Map}
use casa_os_common.Stats.Errors.{Result-cases}
use casa_os_common.Stats.Floats.{Floats}
use casa_os_common.Stats.Store.Clock.{Time, unix}
use casa_os_common.Stats.Store.Rings.{Rings}
use casa_os_common.Stats.Store.Sample.{Agg, clean, add_sample}
use casa_os_common.Stats.Store.Entry.{
  Entry, keys_of, sampled, commit, roll_over, accept, is_late, is_reset, record_sample,
}

-- A minute later than another, if there is one.
abbrev IsAfter : Option ℤ → ℤ → Type 0
IsAfter none m = Unit
IsAfter (some l) m = ltb_ℤ l m ≡ true

-- Minutes that rise, the first one from a floor on.
abbrev pub IsRising : Option ℤ → List ℤ → Type 0
IsRising o [] = Unit
IsRising o (m ∷ ms) = IsAfter o m × IsRising (some m) ms

module _ {F R : Type 0} (fl : Floats F) (rs : Rings F R) where
  -- The minutes that a sequence of samples commits.
  abbrev pub minutes : List (Time × Map F) → Entry F R → List ℤ
  minutes [] e = []
  minutes ((at, smp) ∷ samples) e =
      let (e', o) = record_sample fl rs at smp e in
      let rest = minutes samples e' in elim o.committed [ none ↦ rest | some m ↦ m ∷ rest ]

  -- No sample is more than a minute before the last one accepted.
  abbrev pub IsSteady : List (Time × Map F) → Entry F R → Type 0
  IsSteady [] e = Unit
  IsSteady ((at, smp) ∷ samples) e =
      (is_reset e.last at ≡ false) × IsSteady samples (record_sample fl rs at smp e).0

  -- The pending minute of an entry is later than the last one committed.
  abbrev IsAhead : Option ℤ → Entry F R → Type 0
  IsAhead none e = Unit
  IsAhead (some l) e = elim e.acc [ none ↦ ⊥ | some a ↦ ltb_ℤ l e.acc_min ≡ true ]

  -- What one step does to the minutes; `next` is the pending minute after it.
  abbrev Advances : Option ℤ → Option ℤ → ℤ → Type 0
  Advances o none next = IsAfter o next
  Advances o (some m) next = IsAfter o m × IsAfter (some m) next

  IsAfter-trans : (o : Option ℤ) (m n : ℤ) → IsAfter o m → ltb_ℤ m n ≡ true → IsAfter o n
  IsAfter-trans none m n a h = tt
  IsAfter-trans (some l) m n a h = ground arith

  IsAfter-acc_min :
      (o : Option ℤ) (e : Entry F R) (acc : Map (Agg F))
      → e.acc ≡ some acc
      → IsAhead o e
      → IsAfter o e.acc_min
  IsAfter-acc_min none e acc h a = tt
  IsAfter-acc_min (some l) e acc h a = ground arith

  IsAfter-none : (o : Option ℤ) (e : Entry F R) (m : ℤ) → e.acc ≡ none → IsAhead o e → IsAfter o m
  IsAfter-none none e m h a = tt
  IsAfter-none (some l) e m h a = ground arith

  Advances-of : (o c d : Option ℤ) (m n : ℤ) → c ≡ d → m ≡ n → Advances o d n → Advances o c m
  Advances-of o c d m n p q a =
      subst (λ x. Advances o x m) (sym p) (subst (λ x. Advances o d x) (sym q) a)

  roll_over-Advances :
      (o : Option ℤ) (m : ℤ) (e : Entry F R)
      → IsAhead o e
      → Advances o (roll_over fl rs m e).1 (roll_over fl rs m e).0.acc_min
  unfolding roll_over
  roll_over-Advances o m e a =
      let r = roll_over fl rs m e in
      elim (Option-cases e.acc) [
        | inl h ↦
            (Advances-of o r.1 none r.0.acc_min m (ground (arith, h)) (ground (arith, h))
              (IsAfter-none o e m h a))
        | inr (acc, h) ↦
            (let p = commit fl rs e.acc_min acc e.ring in
              let k = IsAfter-acc_min o e acc h a in
              elim (Bool-cases (ltb_ℤ e.acc_min m)) [
                | inl l ↦ elim (Result-cases p.0) [
                  | inl (u, q) ↦
                      (Advances-of o r.1 (some e.acc_min) r.0.acc_min m (ground (arith, h, q, l))
                        (ground (arith, h, q, l)) (k, l))
                  | inr (x, q) ↦
                      (Advances-of o r.1 none r.0.acc_min m (ground (arith, h, q, l))
                        (ground (arith, h, q, l)) (IsAfter-trans o e.acc_min m k l))
                ]
                | inr l ↦
                    Advances-of o r.1 none r.0.acc_min e.acc_min (ground (arith, h, l))
                      (ground (arith, h, l)) k
              ])
      ]

  -- The same of an entry after the step.
  abbrev Moves : Option ℤ → Option ℤ → Entry F R → Type 0
  Moves o none e = IsAhead o e
  Moves o (some m) e = IsAfter o m × IsAhead (some m) e

  Moves-of :
      (o c : Option ℤ) (e : Entry F R) (acc : Map (Agg F))
      → e.acc ≡ some acc
      → Advances o c e.acc_min
      → Moves o c e
  Moves-of none none e acc h a = tt
  Moves-of (some l) none e acc h a = ground arith
  Moves-of o (some m) e acc h (a, b) = (a, ground arith)

  sampled-IsAhead :
      (o : Option ℤ) (at : Time) (out : Map F) (e : Entry F R)
      → IsAhead o e
      → IsAhead o (sampled fl rs at out e)
  sampled-IsAhead none at out e a = tt
  sampled-IsAhead (some l) at out e a = a

  accept-Moves :
      (o : Option ℤ) (at : Time) (smp : Map F) (e : Entry F R)
      → IsAhead o e
      → Moves o (accept fl rs at smp e).1.committed (accept fl rs at smp e).0
  unfolding accept
  accept-Moves o at smp e a =
      let p = accept fl rs at smp e in
      let out = (clean fl (rs.series e.ring) (keys_of e.acc) smp).0 in
      let e1 = sampled fl rs at out e in
      let r = roll_over fl rs (quot (unix at) 60) e1 in
      Moves-of o p.1.committed p.0 (add_sample fl out (keys_of r.0.acc)) refl
        (roll_over-Advances o (quot (unix at) 60) e1 (sampled-IsAhead o at out e a))

  record_sample-Moves :
      (o : Option ℤ) (at : Time) (smp : Map F) (e : Entry F R)
      → is_reset e.last at ≡ false
      → IsAhead o e
      → Moves o (record_sample fl rs at smp e).1.committed (record_sample fl rs at smp e).0
  unfolding record_sample
  record_sample-Moves o at smp e r a = elim (Bool-cases e.is_gone) [
    | inl g ↦ simp (record_sample, g) a
    | inr g ↦ elim (Bool-cases e.closed) [
      | inl c ↦ simp (record_sample, g, c) a
      | inr c ↦ elim (Bool-cases (is_late e.last at)) [
        | inl l ↦ simp (record_sample, g, c, l) a
        | inr l ↦
            (let q : record_sample fl rs at smp e ≡ accept fl rs at smp e =
                ground (arith, g, c, l, r) in
              subst (λ p. Moves o p.1.committed p.0) (sym q) (accept-Moves o at smp e a))
      ]
    ]
  ]

  minutes-IsRising_from :
      (o : Option ℤ) (samples : List (Time × Map F)) (e : Entry F R)
      → IsAhead o e
      → IsSteady samples e
      → IsRising o (minutes samples e)
  minutes-IsRising_from o [] e a s = tt
  minutes-IsRising_from o ((at, smp) ∷ samples) e a (r, s) =
      let p = record_sample fl rs at smp e in
      let m = record_sample-Moves o at smp e r a in
      elim (Option-cases p.1.committed) [
        | inl h ↦
            (let m' = subst (λ c. Moves o c p.0) h m in
              subst
                (λ c.
                  IsRising o
                    (elim c [ none ↦ minutes samples p.0 | some t ↦ t ∷ minutes samples p.0 ]))
                (sym h) (minutes-IsRising_from o samples p.0 m' s))
        | inr (t, h) ↦
            (let m' = subst (λ c. Moves o c p.0) h m in
              subst
                (λ c.
                  IsRising o
                    (elim c [ none ↦ minutes samples p.0 | some t ↦ t ∷ minutes samples p.0 ]))
                (sym h) (m'.0, minutes-IsRising_from (some t) samples p.0 m'.1 s))
      ]

  pub minutes-IsRising_steady :
      (samples : List (Time × Map F)) (e : Entry F R)
      → IsSteady samples e
      → IsRising none (minutes samples e)
  minutes-IsRising_steady samples e s = minutes-IsRising_from none samples e tt s
