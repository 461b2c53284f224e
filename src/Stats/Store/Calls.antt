-- ===== src/Stats/Store/Calls.antt =====
-- `Record`, `Forget` and `remove` of pkg/stats/store.go.
use casa_os_common.Common.{
  ℕ, ◌-◌, Bool, true, false, not, ◌&&◌, ◌||◌, Option, none, some, List, [], ◌∷◌, length, ltb, leb,
  if◌then◌else◌, get_elem?, take, Bytes, lt_bytes,
}
use casa_os_common.Common.Int.{ℤ, pos, eq_ℤ, ltb_ℤ}
use casa_os_common.Common.Map
use casa_os_common.Common.Map.{Map}
use casa_os_common.Stats.Errors.{
  Err, Errs, Result, ok, err, cause, nil, cons, bad_item, store_closed, unknown_item, gone,
}
use casa_os_common.Stats.Limits.{max_item_len, max_forgotten}
use casa_os_common.Stats.Floats.{Floats}
use casa_os_common.Stats.Store.Clock.{Time, unix}
use casa_os_common.Stats.Store.Rings.{Rings}
use casa_os_common.Stats.Store.Sample.{join_all, join_two}
use casa_os_common.Stats.Store.Entry.{Entry, Outcome, refused, record_sample}
use casa_os_common.Stats.Store.State.{Store, find, set_entry, entry_of}

-- `errors.Is(err, errGone)` for the errors of `record`, which never wraps it.
abbrev pub is_gone_error : Option Err → Bool
is_gone_error (some (cause gone)) = true
is_gone_error _ = false

abbrev pub error_of {ℓ} : {A : Type ℓ} → Result A → Option Err
error_of (ok a) = none
error_of (err e) = some e

abbrev pub add_error : Option Err → Errs → Errs
add_error none errs = errs
add_error (some e) errs = cons e errs

-- The order of `slices.SortFunc`: by mark, then by name.
abbrev pub is_older : Bytes × ℤ → Bytes × ℤ → Bool
is_older (a, s) (b, t) = ltb_ℤ s t || eq_ℤ s t && lt_bytes a b

unfoldable pub insert_older : Bytes × ℤ → Map ℤ → Map ℤ
insert_older x [] = x ∷ []
insert_older x (y ∷ l) = if is_older x y then x ∷ y ∷ l else y ∷ insert_older x l

unfoldable pub sort_older : Map ℤ → Map ℤ
unfolding insert_older
sort_older [] = []
sort_older (x ∷ l) = insert_older x (sort_older l)

abbrev pub names : Map ℤ → List Bytes
names [] = []
names ((k, t) ∷ l) = k ∷ names l

-- `max(at.Unix(), 1)`
abbrev pub mark_of : Time → ℤ
mark_of at = if ltb_ℤ (unix at) (pos 1) then pos 1 else unix at

module _ {F R : Type 0} (fl : Floats F) (rs : Rings F R) (base : Bytes → Bytes)
    (created : Bytes → Result R) where
  -- `record` on the entry with this index.
  unfoldable pub record_at : ℕ → Time → Map F → Store F R → Outcome × Store F R
  unfolding record_sample
  record_at i at smp s = elim (get_elem? s.heap i) [
    | none ↦ (refused (cause gone), s)
    | some e ↦ (let p = record_sample fl rs at smp e in (p.1, set_entry i p.0 s))
  ]

  -- The loop of `Record`. `others` are the changes that other calls make in each round between
  -- `entry` and the lock of the entry; in the rounds after those there are none.
  unfoldable pub record_loop :
      List (Store F R → Store F R) → Bytes → Time → Map F → Store F R → Outcome × Store F R
  unfolding entry_of record_at
  record_loop [] item at smp s =
      let p = entry_of fl rs base (created item) item s in
      elim p.0 [ err x ↦ (refused x, p.1) | ok i ↦ record_at i at smp p.1 ]
  record_loop (other ∷ others) item at smp s =
      let p = entry_of fl rs base (created item) item s in
      elim p.0 [
        | err x ↦ (refused x, p.1)
        | ok i ↦
            (let q = record_at i at smp (other p.1) in
              let again = record_loop others item at smp q.1 in
              if is_gone_error q.0.error then again else q)
      ]

  -- `Record`: the error, and the minute that the hook is called with.
  unfoldable pub record_item :
      (Bytes → Bool)
      → List (Store F R → Store F R)
      → Bytes
      → Time
      → Map F
      → Store F R
      → Outcome × Store F R
  unfolding record_loop
  record_item valid_utf8 others item at smp s =
      if ltb (length item) 1 || ltb max_item_len (length item) || not (valid_utf8 item)
      then (refused (cause bad_item), s)
      else if ltb_ℤ (unix at) (pos 0)
      then (record { committed = none; error = none }, s)
      else record_loop others item at smp s

module _ {F R : Type 0} (rs : Rings F R) (remove_file : Bytes → Option Err) where
  -- `remove`; `remove_file` is the outcome of the removal of an item's file.
  unfoldable pub remove_item : Bytes → Store F R → Option Err × Store F R
  unfolding find
  remove_item item s =
      let s' = record s { items = Map.del item s.items } in
      elim (find item s) [
        | none ↦ (none, s')
        | some (i, e) ↦
            (let p = rs.close e.ring in
              if e.closed
              then (join_two none (remove_file item), set_entry i (record e { is_gone = true }) s')
              else (
                join_two (error_of p.0) (remove_file item),
                set_entry i (record e { is_gone = true; closed = true; ring = p.1 }) s',
              ))
      ]

  -- The loop over the items to remove.
  unfoldable pub remove_all : List Bytes → Store F R → Errs × Store F R
  unfolding remove_item
  remove_all [] s = (nil, s)
  remove_all (k ∷ ks) s =
      let (x, s') = remove_item k s in let (xs, s'') = remove_all ks s' in (add_error x xs, s'')

  abbrev pub mark_at : List (Entry F R) → ℕ → ℤ
  mark_at heap i = elim (get_elem? heap i) [ none ↦ pos 0 | some e ↦ rs.forgotten_at e.ring ]

  -- The forgotten items, each with its mark.
  unfoldable pub forgotten_items : List (Entry F R) → Map ℕ → Map ℤ
  forgotten_items heap [] = []
  forgotten_items heap ((k, i) ∷ m) =
      let rest = forgotten_items heap m in
      let t = mark_at heap i in if eq_ℤ t (pos 0) then rest else (k, t) ∷ rest

  -- The removal of the items forgotten longest ago.
  unfoldable pub trim_forgotten : Store F R → Option Err × Store F R
  unfolding remove_all forgotten_items sort_older
  trim_forgotten s =
      let old = forgotten_items s.heap s.items in
      let (errs, s') = remove_all (names (take (length old - max_forgotten) (sort_older old))) s in
      if leb (length old) max_forgotten then (none, s) else (join_all errs, s')

  -- `Forget` on the entry with this index.
  unfoldable pub forget_at : ℕ → Entry F R → Time → Store F R → Option Err × Store F R
  unfolding trim_forgotten
  forget_at i e at s =
      let p = rs.set_forgotten (mark_of at) e.ring in
      let s' = set_entry i (record e { ring = p.1 }) s in
      elim p.0 [ err x ↦ (some x, s') | ok u ↦ trim_forgotten s' ]

  -- `Forget`
  unfoldable pub forget : Bytes → Time → Store F R → Option Err × Store F R
  unfolding find forget_at
  forget item at s = if s.closed then (some (cause store_closed), s) else elim (find item s) [
    | none ↦ (some (cause unknown_item), s)
    | some (i, e) ↦ forget_at i e at s
  ]
