-- ===== src/Stats/Store/Safety.antt =====
-- The calls of the store (pkg/stats/store.go) keep what holds of it.
use casa_os_common.Common.{
  ℕ, ◌-◌, ◌≡◌, refl, arith, Bool, true, false, not, ◌||◌, Option, some, List, [], ◌∷◌, length, ltb,
  leb, get_elem?, take, Bytes, inl, inr, Bool-cases, Option-cases,
}
use casa_os_common.Common.Int.{ℤ, pos, ltb_ℤ, eq_ℤ, ◌-ℤ◌}
use casa_os_common.Common.Map
use casa_os_common.Common.Map.{Map}
use casa_os_common.Stats.Limits.{max_item_len, max_forgotten}
use casa_os_common.Stats.Errors.{Err, Result, Result-cases}
use casa_os_common.Stats.Floats.{Floats}
use casa_os_common.Stats.Store.Clock.{Time, unix}
use casa_os_common.Stats.Store.Rings.{Rings}
use casa_os_common.Stats.Store.Entry.{Entry, record_sample}
use casa_os_common.Stats.Store.Entry.Kept.{record_sample-IsKept}
use casa_os_common.Stats.Store.State.{Store, find, set_entry, entry_of}
use casa_os_common.Stats.Store.Calls.{
  record_at, record_loop, record_item, is_gone_error, remove_item, remove_all, trim_forgotten,
  forget, forget_at, forgotten_items, sort_older, names, mark_of,
}
use casa_os_common.Stats.Store.Sweep.{
  DirEntry, newest_of, is_expired, sweep_items, sweep, retention,
}
use casa_os_common.Stats.Store.Counts.{count_live-del, count_live-set_other}
use casa_os_common.Stats.Store.Held.{Apart-del, NotIndex-del_self, Held-del, Held-set_other}
use casa_os_common.Stats.Store.Invariant.{
  IsWell, set_entry-IsWell, set_entry-IsWell_less, entry_of-IsWell, find-some,
}

-- What other calls do keeps a property of the store.
abbrev pub AllKeep : {F R : Type 0} → (Store F R → Type 0) → List (Store F R → Store F R) → Type 0
AllKeep P [] = Unit
AllKeep {F} {R} P (f ∷ fs) = ((s : Store F R) → P s → P (f s)) × AllKeep P fs

module _ {F R : Type 0} (fl : Floats F) (rs : Rings F R) (base : Bytes → Bytes)
    (created : Bytes → Result R) where
  pub record_at-IsWell :
      (i : ℕ) (at : Time) (smp : Map F) (s : Store F R)
      → IsWell rs s
      → IsWell rs (record_at fl rs base created i at smp s).1
  unfolding record_at
  record_at-IsWell i at smp s w = elim (Option-cases (get_elem? s.heap i)) [
    | inl n ↦ simp (record_at, n) w
    | inr (e, h) ↦
        (let k = record_sample-IsKept fl rs at smp e in
          simp (record_at, h)
            (set_entry-IsWell rs i e (record_sample fl rs at smp e).0 s w h
              (simp (k.forgotten) refl) k.is_gone))
  ]

  pub record_loop-IsWell :
      (others : List (Store F R → Store F R)) (item : Bytes) (at : Time) (smp : Map F)
      (s : Store F R)
      → AllKeep (IsWell rs) others
      → IsWell rs s
      → IsWell rs (record_loop fl rs base created others item at smp s).1
  unfolding record_loop
  record_loop-IsWell [] item at smp s a w =
      let p = entry_of fl rs base (created item) item s in
      let v = entry_of-IsWell fl rs base (created item) item s w in
      elim (Result-cases p.0) [
        | inl (i, h) ↦ simp (record_loop, h) (record_at-IsWell i at smp p.1 v)
        | inr (x, h) ↦ simp (record_loop, h) v
      ]
  record_loop-IsWell (other ∷ others) item at smp s (a, as') w =
      let p = entry_of fl rs base (created item) item s in
      let v = entry_of-IsWell fl rs base (created item) item s w in
      elim (Result-cases p.0) [
        | inl (i, h) ↦
            (let q = record_at fl rs base created i at smp (other p.1) in
              let u = record_at-IsWell i at smp (other p.1) (a p.1 v) in
              let ih = record_loop-IsWell others item at smp q.1 as' u in
              elim (Bool-cases (is_gone_error q.0.error)) [
                | inl g ↦ simp (record_loop, h, g) ih
                | inr g ↦ simp (record_loop, h, g) u
              ])
        | inr (x, h) ↦ simp (record_loop, h) v
      ]

  -- Record, with calls of others between its lookup and its lock that keep this, keeps that at most 256
  -- items are live, that names and entries belong together one to one, and that no item points to a
  -- removed entry.
  pub record_item-IsWell :
      (valid_utf8 : Bytes → Bool) (others : List (Store F R → Store F R)) (item : Bytes) (at : Time)
      (smp : Map F) (s : Store F R)
      → AllKeep (IsWell rs) others
      → IsWell rs s
      → IsWell rs (record_item fl rs base created valid_utf8 others item at smp s).1
  unfolding record_item
  record_item-IsWell valid_utf8 others item at smp s a w =
      elim (Bool-cases
        (ltb (length item) 1 || ltb max_item_len (length item) || not (valid_utf8 item))) [
          | inl h ↦ simp (record_item, h) w
          | inr h ↦ elim (Bool-cases (ltb_ℤ (unix at) (pos 0))) [
            | inl n ↦ simp (record_item, h, n) w
            | inr n ↦ simp (record_item, h, n) (record_loop-IsWell others item at smp s a w)
          ]
        ]

module _ {F R : Type 0} (rs : Rings F R) where
  -- The entry of a removed item may change in any way.
  del-IsWell :
      (k : Bytes) (i : ℕ) (e : Entry F R) (s : Store F R)
      → IsWell rs s
      → Map.get k s.items ≡ some i
      → IsWell rs (set_entry i e (record s { items = Map.del k s.items }))
  del-IsWell k i e s w g =
      let n = NotIndex-del_self k i s.items w.apart g in
      let m = Map.del k s.items in
      record {
        cap =
            (let c = count_live-set_other rs s.heap i e m n in
              let d = count_live-del rs s.heap k s.items in let b = w.cap in omega arith);
        apart = Apart-del k s.items w.apart;
        held = Held-set_other s.heap i e m n (Held-del s.heap k s.items w.held);
      }

  drop-IsWell :
      (k : Bytes) (s : Store F R) → IsWell rs s → IsWell rs (record s { items = Map.del k s.items })
  drop-IsWell k s w = record {
    cap = (let d = count_live-del rs s.heap k s.items in let b = w.cap in omega arith);
    apart = Apart-del k s.items w.apart;
    held = Held-del s.heap k s.items w.held;
  }

module _ {F R : Type 0} (rs : Rings F R) (remove_file : Bytes → Option Err) where
  pub remove_item-IsWell :
      (item : Bytes) (s : Store F R) → IsWell rs s → IsWell rs (remove_item rs remove_file item s).1
  unfolding remove_item
  remove_item-IsWell item s w = elim (Option-cases (find item s)) [
    | inl f ↦ simp (remove_item, f) (drop-IsWell rs item s w)
    | inr ((i, e), f) ↦
        (let g = (find-some rs item s i e f).0 in
          elim (Bool-cases e.closed) [
            | inl c ↦
                simp (remove_item, f, c)
                  (del-IsWell rs item i (record e { is_gone = true; closed = true }) s w g)
            | inr c ↦
                (simp (remove_item, f, c)
                  (del-IsWell rs item i
                    (record e { is_gone = true; closed = true; ring = (rs.close e.ring).1 }) s w g))
          ])
  ]

  pub remove_all-IsWell :
      (ks : List Bytes) (s : Store F R) → IsWell rs s → IsWell rs (remove_all rs remove_file ks s).1
  unfolding remove_all
  remove_all-IsWell [] s w = w
  remove_all-IsWell (k ∷ ks) s w =
      remove_all-IsWell ks (remove_item rs remove_file k s).1 (remove_item-IsWell k s w)

  trim_forgotten-IsWell :
      (s : Store F R) → IsWell rs s → IsWell rs (trim_forgotten rs remove_file s).1
  unfolding trim_forgotten
  trim_forgotten-IsWell s w =
      let old = forgotten_items rs remove_file s.heap s.items in
      let ks = names (take (length old - max_forgotten) (sort_older old)) in
      elim (Bool-cases (leb (length old) max_forgotten)) [
        | inl h ↦ simp (trim_forgotten, h) w
        | inr h ↦ simp (trim_forgotten, h) (remove_all-IsWell ks s w)
      ]

  -- The mark of a call of `Forget` is never that of a live item.
  mark_of-nonzero : (at : Time) → eq_ℤ (mark_of at) (pos 0) ≡ false
  mark_of-nonzero at = ground arith

  forget_at-IsWell :
      (i : ℕ) (e : Entry F R) (at : Time) (s : Store F R)
      → IsWell rs s
      → get_elem? s.heap i ≡ some e
      → IsWell rs (forget_at rs remove_file i e at s).1
  unfolding forget_at
  forget_at-IsWell i e at s w h =
      let p = rs.set_forgotten (mark_of at) e.ring in
      let e' = record e { ring = p.1 } in
      elim (Result-cases p.0) [
        | inl (u, q) ↦
            (let m = rs.forgotten-set_forgotten (mark_of at) e.ring q in
              let w' =
                set_entry-IsWell_less rs i e e' s w h (ground (arith, m, mark_of-nonzero at))
                  refl in
              simp (forget_at, q) (trim_forgotten-IsWell (set_entry i e' s) w'))
        | inr (x, q) ↦
            (let m = rs.forgotten-set_forgotten_err (mark_of at) e.ring x q in
              simp (forget_at, q) (set_entry-IsWell rs i e e' s w h (simp (m) refl) refl))
      ]

  pub forget-IsWell :
      (item : Bytes) (at : Time) (s : Store F R)
      → IsWell rs s
      → IsWell rs (forget rs remove_file item at s).1
  unfolding forget
  forget-IsWell item at s w = elim (Bool-cases s.closed) [
    | inl c ↦ simp (forget, c) w
    | inr c ↦ elim (Option-cases (find item s)) [
      | inl f ↦ simp (forget, c, f) w
      | inr ((i, e), f) ↦
          simp (forget, c, f) (forget_at-IsWell i e at s w (find-some rs item s i e f).1)
    ]
  ]

  sweep_items-IsWell :
      (cut : ℤ) (m : Map ℕ) (s : Store F R)
      → IsWell rs s
      → IsWell rs (sweep_items rs remove_file cut m s).1
  unfolding sweep_items
  sweep_items-IsWell cut [] s w = w
  sweep_items-IsWell cut ((k, i) ∷ m) s w = elim (Option-cases (get_elem? s.heap i)) [
    | inl n ↦ simp (sweep_items, n) (sweep_items-IsWell cut m s w)
    | inr (e, h) ↦ elim (Result-cases (newest_of rs remove_file e)) [
      | inr (x, q) ↦ simp (sweep_items, h, q) (sweep_items-IsWell cut m s w)
      | inl (newest, q) ↦
          (let s' = (remove_item rs remove_file k s).1 in
            elim (Bool-cases (is_expired rs remove_file cut (rs.forgotten_at e.ring) newest)) [
              | inl g ↦
                  simp (sweep_items, h, q, g)
                    (sweep_items-IsWell cut m s' (remove_item-IsWell k s w))
              | inr g ↦ simp (sweep_items, h, q, g) (sweep_items-IsWell cut m s w)
            ])
    ]
  ]

  pub sweep-IsWell :
      (remove_other : Bytes → Option Err) (now : Time) (ents : Result (List DirEntry))
      (s : Store F R)
      → IsWell rs s
      → IsWell rs (sweep rs remove_file remove_other now ents s).2
  unfolding sweep
  sweep-IsWell remove_other now ents s w =
      let cut = unix (now -ℤ pos retention) in
      let v = sweep_items-IsWell cut s.items s w in
      elim (Bool-cases s.closed) [
        | inl c ↦ simp (sweep, c) w
        | inr c ↦ elim (Result-cases ents) [
          | inl (ds, q) ↦ simp (sweep, c, q) v
          | inr (x, q) ↦ simp (sweep, c, q) v
        ]
      ]

-- A call of the store; `created` gives what `createRing` returns.
pub data Call (F R : Type 0) : Type 0 where
  record_call : (created : Bytes → Result R) → Bytes → Time → Map F → Call F R
  forget_call : Bytes → Time → Call F R
  sweep_call : Time → Result (List DirEntry) → Call F R

module _ {F R : Type 0} (fl : Floats F) (rs : Rings F R) (base : Bytes → Bytes)
    (remove_file : Bytes → Option Err) where
  -- One call after the other.
  unfoldable pub run_calls : (Bytes → Bool) → List (Call F R) → Store F R → Store F R
  unfolding record_item forget sweep
  run_calls valid_utf8 [] s = s
  run_calls valid_utf8 (record_call created item at smp ∷ cs) s =
      run_calls valid_utf8 cs (record_item fl rs base created valid_utf8 [] item at smp s).1
  run_calls valid_utf8 (forget_call item at ∷ cs) s =
      run_calls valid_utf8 cs (forget rs remove_file item at s).1
  run_calls valid_utf8 (sweep_call now ents ∷ cs) s =
      run_calls valid_utf8 cs (sweep rs remove_file remove_file now ents s).2

  -- From a store with at most 256 live items, whose names and entries belong together one to one and no
  -- item of which points to a removed entry, any sequence of calls of Record, Forget and Sweep leads to
  -- such a store.
  pub run_calls-IsWell :
      (valid_utf8 : Bytes → Bool) (cs : List (Call F R)) (s : Store F R)
      → IsWell rs s
      → IsWell rs (run_calls valid_utf8 cs s)
  unfolding run_calls
  run_calls-IsWell valid_utf8 [] s w = w
  run_calls-IsWell valid_utf8 (record_call created item at smp ∷ cs) s w =
      run_calls-IsWell valid_utf8 cs (record_item fl rs base created valid_utf8 [] item at smp s).1
        (record_item-IsWell fl rs base created valid_utf8 [] item at smp s tt w)
  run_calls-IsWell valid_utf8 (forget_call item at ∷ cs) s w =
      run_calls-IsWell valid_utf8 cs (forget rs remove_file item at s).1
        (forget-IsWell rs remove_file item at s w)
  run_calls-IsWell valid_utf8 (sweep_call now ents ∷ cs) s w =
      run_calls-IsWell valid_utf8 cs (sweep rs remove_file remove_file now ents s).2
        (sweep-IsWell rs remove_file remove_file now ents s w)
