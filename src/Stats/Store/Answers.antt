-- ===== src/Stats/Store/Answers.antt =====
-- The loop of `Record` of pkg/stats/store.go: an entry that `entry` gives is not removed yet.
use casa_os_common.Common.{
  ℕ, ◌≡◌, ◌≢◌, refl, arith, Bool, false, Option, none, some, List, [], ◌∷◌, leb, get_elem?, set,
  ◌∙◌, Bytes, inl, inr, Bool-cases, Option-cases,
}
use casa_os_common.Common.Int.{pos, quot}
use casa_os_common.Common.Map.{Map}
use casa_os_common.Stats.Limits.{max_items}
use casa_os_common.Stats.Errors.{Err, Result, ok, err, cause, wrap, join, gone, Result-cases}
use casa_os_common.Stats.Floats.{Floats}
use casa_os_common.Stats.Rules.{contains}
use casa_os_common.Stats.Store.Clock.{Time, unix}
use casa_os_common.Stats.Store.Rings.{Rings}
use casa_os_common.Stats.Store.Sample.{join_two, clean}
use casa_os_common.Stats.Store.Entry.{
  Entry, sampled, keys_of, roll_over, accept, record_sample, step_back, new_entry,
}
use casa_os_common.Stats.Store.State.{Store, index_result, find, is_alive, count_live, entry_of}
use casa_os_common.Stats.Store.Calls.{is_gone_error, record_at, record_loop, record_item}
use casa_os_common.Stats.Store.Held.{gone_at, gone_at-get}
use casa_os_common.Stats.Store.Invariant.{
  IsWell, find-some, entry_of-IsWell, get_elem?-push_self, gone_at-set,
}
use casa_os_common.Stats.Store.Safety.{AllKeep, record_at-IsWell}

module _ {F R : Type 0} (fl : Floats F) (rs : Rings F R) where
  join_two-not_gone : (a b : Option Err) → is_gone_error (join_two a b) ≡ false
  join_two-not_gone none none = refl
  join_two-not_gone (some a) none = refl
  join_two-not_gone none (some b) = refl
  join_two-not_gone (some a) (some b) = refl

  accept-not_gone :
      (at : Time) (smp : Map F) (e : Entry F R)
      → is_gone_error (accept fl rs at smp e).1.error ≡ false
  unfolding accept
  accept-not_gone at smp e =
      let c = clean fl (rs.series e.ring) (keys_of e.acc) smp in
      let o = roll_over fl rs (quot (unix at) 60) (sampled fl rs at c.0 e) in
      join_two-not_gone o.2 c.1

  record_sample-not_gone :
      (at : Time) (smp : Map F) (e : Entry F R)
      → e.is_gone ≡ false
      → is_gone_error (record_sample fl rs at smp e).1.error ≡ false
  unfolding record_sample
  record_sample-not_gone at smp e h =
      ground (arith, h, accept-not_gone at smp e, accept-not_gone at smp (step_back fl rs e))

  index_result-not_gone :
      (i : ℕ) (u : Result (Unit {0})) (x : Err)
      → u ≢ err (cause gone)
      → index_result i u ≡ err x
      → is_gone_error (some x) ≡ false
  index_result-not_gone i (ok u) x n h = ground arith
  index_result-not_gone i (err (cause gone)) x n h = absurd (n refl)
  index_result-not_gone i (err y) x n h = ground (arith, n)

module _ {F R : Type 0} (fl : Floats F) (rs : Rings F R) (base : Bytes → Bytes) where
  -- What the result of `entry` is like: an entry that is not removed, or an error but `errGone`.
  abbrev IsFresh : Result ℕ → List (Entry F R) → Type 0
  IsFresh (ok i) heap = gone_at heap i ≡ false
  IsFresh (err x) heap = is_gone_error (some x) ≡ false

  index_result-IsFresh :
      (i : ℕ) (u : Result (Unit {0})) (heap : List (Entry F R))
      → u ≢ err (cause gone)
      → gone_at heap i ≡ false
      → IsFresh (index_result i u) heap
  index_result-IsFresh i (ok u) heap n g = g
  index_result-IsFresh i (err x) heap n g = index_result-not_gone fl rs i (err x) x n refl

  created-not_gone :
      (created : Result R) (x : Err)
      → created ≢ err (cause gone)
      → created ≡ err x
      → is_gone_error (some x) ≡ false
  created-not_gone created (cause gone) n h = absurd (n h)
  created-not_gone created (cause c) n h = ground (arith, n)
  created-not_gone created (wrap x) n h = refl
  created-not_gone created (join x) n h = refl

  entry_of-IsFresh :
      (created : Result R) (name : Bytes) (s : Store F R)
      → created ≢ err (cause gone)
      → IsWell rs s
      → IsFresh (entry_of fl rs base created name s).0 (entry_of fl rs base created name s).1.heap
  unfolding entry_of
  entry_of-IsFresh created name s n w =
      let m = count_live rs s.heap s.items in
      elim (Bool-cases s.closed) [
        | inl c ↦ simp (entry_of, c) refl
        | inr c ↦ elim (Option-cases (find name s)) [
          | inl f ↦ elim (Bool-cases (leb max_items m)) [
            | inl b ↦ simp (entry_of, c, f, b) refl
            | inr b ↦ elim (Bool-cases (contains s.refused (base name))) [
              | inl r ↦ simp (entry_of, c, f, b, r) refl
              | inr r ↦ elim (Result-cases created) [
                | inl (o, q) ↦
                    (let z = get_elem?-push_self rs s.heap (new_entry fl rs o) s.heap in
                      simp (entry_of, c, f, b, r, q) (ground (arith, z)))
                | inr (x, q) ↦ simp (entry_of, c, f, b, r, q) (created-not_gone created x n q)
              ]
            ]
          ]
          | inr ((i, e), f) ↦
              (let g = find-some rs name s i e f in
                let here = gone_at-get s.heap name i s.items w.held g.0 in
                elim (Bool-cases (is_alive rs e)) [
                  | inl a ↦ simp (entry_of, c, f, a) here
                  | inr a ↦ elim (Bool-cases (leb max_items m)) [
                    | inl b ↦ simp (entry_of, c, f, a, b) refl
                    | inr b ↦
                        (let p = rs.set_forgotten (pos 0) e.ring in
                          let e' = record e { ring = p.1 } in
                          let z = gone_at-set rs s.heap i e e' g.1 refl i ∙ here in
                          simp (entry_of, c, f, a, b)
                            (index_result-IsFresh i p.0 (set s.heap i e')
                              (rs.set_forgotten-not_gone (pos 0) e.ring) z))
                  ]
                ])
        ]
      ]

module _ {F R : Type 0} (fl : Floats F) (rs : Rings F R) (base : Bytes → Bytes)
    (created : Bytes → Result R) where
  record_at-not_gone :
      (i : ℕ) (at : Time) (smp : Map F) (s : Store F R)
      → gone_at s.heap i ≡ false
      → is_gone_error (record_at fl rs base created i at smp s).0.error ≡ false
  unfolding record_at
  record_at-not_gone i at smp s g = elim (Option-cases (get_elem? s.heap i)) [
    | inl n ↦ ground (arith, n)
    | inr (e, h) ↦ ground (arith, h, record_sample-not_gone fl rs at smp e)
  ]

  record_loop-not_gone :
      (others : List (Store F R → Store F R)) (item : Bytes) (at : Time) (smp : Map F)
      (s : Store F R)
      → created item ≢ err (cause gone)
      → AllKeep (IsWell rs) others
      → IsWell rs s
      → is_gone_error (record_loop fl rs base created others item at smp s).0.error ≡ false
  unfolding record_loop
  record_loop-not_gone [] item at smp s n a w =
      let p = entry_of fl rs base (created item) item s in
      let v = entry_of-IsFresh fl rs base (created item) item s n w in
      elim (Result-cases p.0) [
        | inl (i, h) ↦ ground (arith, h, v, record_at-not_gone i at smp p.1)
        | inr (x, h) ↦ ground (arith, h, v)
      ]
  record_loop-not_gone (other ∷ others) item at smp s n (a, as') w =
      let p = entry_of fl rs base (created item) item s in
      let v = entry_of-IsWell fl rs base (created item) item s w in
      let u = entry_of-IsFresh fl rs base (created item) item s n w in
      elim (Result-cases p.0) [
        | inl (i, h) ↦
            (let q = record_at fl rs base created i at smp (other p.1) in
              let k = record_at-IsWell fl rs base created i at smp (other p.1) (a p.1 v) in
              let ih = record_loop-not_gone others item at smp q.1 n as' k in ground (arith, h, ih))
        | inr (x, h) ↦ ground (arith, h, u)
      ]

  -- Record, which looks an item up again whenever other calls removed it before its lock, never returns
  -- that the item is removed: after any number of such rounds the next one that no other call disturbs
  -- gives its result, if the store is well-formed, the other calls keep it so, and createRing does not
  -- return errGone.
  pub record_item-not_gone :
      (valid_utf8 : Bytes → Bool) (others : List (Store F R → Store F R)) (item : Bytes) (at : Time)
      (smp : Map F) (s : Store F R)
      → created item ≢ err (cause gone)
      → AllKeep (IsWell rs) others
      → IsWell rs s
      → is_gone_error (record_item fl rs base created valid_utf8 others item at smp s).0.error
        ≡ false
  unfolding record_item
  record_item-not_gone valid_utf8 others item at smp s n a w =
      ground (arith, record_loop-not_gone others item at smp s n a w)
