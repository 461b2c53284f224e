-- ===== src/Stats/Store/Steady.antt =====
-- The minutes that `record` of pkg/stats/store.go commits, by the times of the samples alone.
use casa_os_common.Common.{
  ◌*◌, ◌≡◌, refl, sym, arith, false, Option, none, some, List, [], ◌∷◌, inl, inr, ◌⊎◌, ◌∙◌, ap,
  Bool-cases, Option-cases, if◌then◌else◌,
}
use mathlib.Core.Path.{subst}
use casa_os_common.Common.Int.{ℤ, pos, ltb_ℤ, ◌≤ℤ◌, ◌+ℤ◌, +ℤ_parts, -ℤ_parts, quot}
use casa_os_common.Common.Map.{Map}
use casa_os_common.Stats.Errors.{Result-cases}
use casa_os_common.Stats.Floats.{Floats}
use casa_os_common.Stats.Store.Clock.{Time, second, unix, within_minute}
use casa_os_common.Stats.Store.Rings.{Rings}
use casa_os_common.Stats.Store.Sample.{clean}
use casa_os_common.Stats.Store.Entry.{
  Entry, keys_of, sampled, commit, roll_over, accept, is_late, is_reset, record_sample,
}
use casa_os_common.Stats.Store.Minutes.{minutes, IsSteady, IsRising, minutes-IsRising_steady}

-- The later of two times.
abbrev pub later : Time → Time → Time
later a b = if ltb_ℤ a b then b else a

-- No time is more than a minute before the latest of those before it, the first of which is given.
abbrev pub IsNear : {F : Type 0} → Option Time → List (Time × Map F) → Type 0
IsNear o [] = Unit
IsNear none ((at, smp) ∷ samples) = IsNear (some at) samples
IsNear (some l) ((at, smp) ∷ samples) =
    (l ≤ℤ at +ℤ pos (60 * second)) × IsNear (some (later l at)) samples

-- A last time that is not past a latest one.
abbrev NotPast : Option Time → Option Time → Type 0
NotPast none o = Unit
NotPast (some a) none = ⊥
NotPast (some a) (some l) = a ≤ℤ l

is_reset_near :
    (last : Option Time) (l at : Time)
    → NotPast last (some l)
    → l ≤ℤ at +ℤ pos (60 * second)
    → is_reset last at ≡ false
unfolding is_reset within_minute
is_reset_near none l at n h = refl
is_reset_near (some a) l at n h =
    ground (arith, n, h, +ℤ_parts at (pos (60 * second)), -ℤ_parts a at)

-- The last time after a sample is that of before, or that of the sample.
NotPast-later :
    (last new : Option Time) (l at : Time)
    → NotPast last (some l)
    → (new ≡ last) ⊎ (new ≡ some at)
    → NotPast new (some (later l at))
NotPast-later none new l at n (inl e) = subst (λ x. NotPast x (some (later l at))) (sym e) tt
NotPast-later (some a) new l at n (inl e) =
    subst (λ x. NotPast x (some (later l at))) (sym e) (ground (arith, n))
NotPast-later last new l at n (inr e) =
    subst (λ x. NotPast x (some (later l at))) (sym e) (ground arith)

module _ {F R : Type 0} (fl : Floats F) (rs : Rings F R) where
  last-roll_over : (m : ℤ) (e : Entry F R) → (roll_over fl rs m e).0.last ≡ e.last
  unfolding roll_over
  last-roll_over m e = elim (Option-cases e.acc) [
    | inl h ↦ ground (arith, h)
    | inr (acc, h) ↦ elim (Bool-cases (ltb_ℤ e.acc_min m)) [
      | inr l ↦ ground (arith, h, l)
      | inl l ↦ elim (Result-cases (commit fl rs e.acc_min acc e.ring).0) [
        | inl (u, q) ↦ ground (arith, h, l, q)
        | inr (x, q) ↦ ground (arith, h, l, q)
      ]
    ]
  ]

  last-accept : (at : Time) (smp : Map F) (e : Entry F R) → (accept fl rs at smp e).0.last ≡ some at
  unfolding accept
  last-accept at smp e =
      last-roll_over (quot (unix at) 60)
        (sampled fl rs at (clean fl (rs.series e.ring) (keys_of e.acc) smp).0 e)

  last-record_sample :
      (at : Time) (smp : Map F) (e : Entry F R)
      → is_reset e.last at ≡ false
      → ((record_sample fl rs at smp e).0.last ≡ e.last)
        ⊎ ((record_sample fl rs at smp e).0.last ≡ some at)
  unfolding record_sample
  last-record_sample at smp e r = elim (Bool-cases e.is_gone) [
    | inl g ↦ inl (ground (arith, g))
    | inr g ↦ elim (Bool-cases e.closed) [
      | inl c ↦ inl (ground (arith, g, c))
      | inr c ↦ elim (Bool-cases (is_late e.last at)) [
        | inl l ↦ inl (ground (arith, g, c, l))
        | inr l ↦
            (let q : record_sample fl rs at smp e ≡ accept fl rs at smp e =
                ground (arith, g, c, l, r) in
              inr (ap (λ p. p.0.last) q ∙ last-accept at smp e))
      ]
    ]
  ]

  IsNear-IsSteady_from :
      (l : Time) (samples : List (Time × Map F)) (e : Entry F R)
      → NotPast e.last (some l)
      → IsNear (some l) samples
      → IsSteady fl rs samples e
  IsNear-IsSteady_from l [] e n h = tt
  IsNear-IsSteady_from l ((at, smp) ∷ samples) e n (h, hs) =
      let r = is_reset_near e.last l at n h in
      (
        r,
        IsNear-IsSteady_from (later l at) samples (record_sample fl rs at smp e).0
            (NotPast-later e.last (record_sample fl rs at smp e).0.last l at n
              (last-record_sample at smp e r))
            hs,
      )

  last-NotPast : (o : Option Time) (l : Time) → o ≡ none → NotPast o (some l)
  last-NotPast o l z = subst (λ x. NotPast x (some l)) (sym z) tt

  same-NotPast : (o : Option Time) (l : Time) → o ≡ some l → NotPast o (some l)
  same-NotPast o l z = subst (λ x. NotPast x (some l)) (sym z) (omega arith)

  IsNear-IsSteady :
      (o : Option Time) (samples : List (Time × Map F)) (e : Entry F R)
      → e.last ≡ o
      → IsNear o samples
      → IsSteady fl rs samples e
  IsNear-IsSteady o [] e z h = tt
  IsNear-IsSteady (some l) ((at, smp) ∷ samples) e z h =
      IsNear-IsSteady_from l ((at, smp) ∷ samples) e (same-NotPast e.last l z) h
  IsNear-IsSteady none ((at, smp) ∷ samples) e z h =
      let near : at ≤ℤ at +ℤ pos (60 * second) = omega (arith, +ℤ_parts at (pos (60 * second))) in
      let n = last-NotPast e.last at z in
      let r = is_reset_near e.last at at n near in
      let e' = (record_sample fl rs at smp e).0 in
      let same : later at at ≡ at = ground arith in
      (
        r,
        IsNear-IsSteady_from at samples e'
            (subst (λ t. NotPast e'.last (some t)) same
              (NotPast-later e.last e'.last at at n (last-record_sample at smp e r)))
            h,
      )

  -- Over any samples of one entry, none of which is more than a minute before the latest of those before it
  -- and of the last one that the entry has accepted, the minutes committed rise strictly.
  pub minutes-IsRising :
      (samples : List (Time × Map F)) (e : Entry F R)
      → IsNear e.last samples
      → IsRising none (minutes fl rs samples e)
  minutes-IsRising samples e h =
      minutes-IsRising_steady fl rs samples e (IsNear-IsSteady e.last samples e refl h)
