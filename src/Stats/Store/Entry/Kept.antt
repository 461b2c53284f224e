-- ===== src/Stats/Store/Entry/Kept.antt =====
-- What `record` of pkg/stats/store.go leaves alone in an entry.
use casa_os_common.Common.{
  ◌≡◌, refl, arith, Option, none, some, [], ◌∷◌, ℕ, if◌then◌else◌, ◌==◌, Option-cases, inl, inr,
}
use casa_os_common.Common.Int.{ℤ, quot}
use casa_os_common.Common.Map.{Map}
use casa_os_common.Stats.Errors.{Result-cases}
use casa_os_common.Stats.Floats.{Floats}
use casa_os_common.Stats.Ring.Write.{MinuteValue}
use casa_os_common.Stats.Store.Clock.{Time, unix}
use casa_os_common.Stats.Store.Rings.{Rings}
use casa_os_common.Stats.Store.Sample.{Agg, sort_keys, minute_of, clean}
use casa_os_common.Stats.Store.Entry.{
  Entry, keys_of, sampled, commit_keys, commit, roll_over, accept, step_back, record_sample,
}

module _ {F R : Type 0} (fl : Floats F) (rs : Rings F R) where
  forgotten-commit_keys :
      (m : Map (Agg F)) (vals : ℕ → Option (MinuteValue F)) (r : R)
      → rs.forgotten_at (commit_keys fl rs m vals r).1 ≡ rs.forgotten_at r
  unfolding commit_keys
  forgotten-commit_keys [] vals r = refl
  forgotten-commit_keys ((k, a) ∷ m) vals r = elim (Result-cases (rs.add_series k r).0) [
    | inl (i, h) ↦
        (ground (
          arith,
          h,
          rs.forgotten-add_series k r,
          forgotten-commit_keys m (λ j. if i == j then some (minute_of fl a) else vals j)
              (rs.add_series k r).1,
        ))
    | inr (x, h) ↦ ground (arith, h, rs.forgotten-add_series k r)
  ]

  pub forgotten-commit :
      (m : ℤ) (acc : Map (Agg F)) (r : R)
      → rs.forgotten_at (commit fl rs m acc r).1 ≡ rs.forgotten_at r
  unfolding commit
  forgotten-commit m acc r =
      let p = commit_keys fl rs (sort_keys acc) (λ i. none) r in
      let k = forgotten-commit_keys (sort_keys acc) (λ i. none) r in
      elim (Result-cases p.0) [
        | inl (vals, h) ↦ ground (arith, h, k, rs.forgotten-write_minute m vals p.1)
        | inr (x, h) ↦ ground (arith, h, k)
      ]

  -- The mark of the ring, and the fields that other calls set.
  pub record IsKept (e e' : Entry F R) : Type 0 where
    pub forgotten : rs.forgotten_at e'.ring ≡ rs.forgotten_at e.ring
    pub is_gone : e'.is_gone ≡ e.is_gone
    pub closed : e'.closed ≡ e.closed

  roll_over-IsKept : (m : ℤ) (e : Entry F R) → IsKept e (roll_over fl rs m e).0
  unfolding roll_over
  roll_over-IsKept m e = elim (Option-cases e.acc) [
    | inl h ↦ ground (arith, h)
    | inr (acc, h) ↦ elim (Result-cases (commit fl rs e.acc_min acc e.ring).0) [
      | inl (u, q) ↦ ground (arith, h, q, forgotten-commit e.acc_min acc e.ring)
      | inr (x, q) ↦ ground (arith, h, q, forgotten-commit e.acc_min acc e.ring)
    ]
  ]

  accept-IsKept : (at : Time) (smp : Map F) (e : Entry F R) → IsKept e (accept fl rs at smp e).0
  unfolding accept
  accept-IsKept at smp e =
      let out = (clean fl (rs.series e.ring) (keys_of e.acc) smp).0 in
      let k = roll_over-IsKept (quot (unix at) 60) (sampled fl rs at out e) in ground (arith, k)

  pub record_sample-IsKept :
      (at : Time) (smp : Map F) (e : Entry F R) → IsKept e (record_sample fl rs at smp e).0
  unfolding record_sample step_back
  record_sample-IsKept at smp e =
      ground (arith, accept-IsKept at smp e, accept-IsKept at smp (step_back fl rs e))
