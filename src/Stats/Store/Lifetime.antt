-- ===== src/Stats/Store/Lifetime.antt =====
-- `open` and `Close` of pkg/stats/store.go.
use casa_os_common.Common.{
  ℕ, Bool, true, false, Option, none, some, List, [], ◌∷◌, ◌++◌, length, if◌then◌else◌, get_elem?,
  Bytes, eq_bytes, codes,
}
use casa_os_common.Common.Int.{ℤ}
use casa_os_common.Common.Map
use casa_os_common.Common.Map.{Map}
use casa_os_common.Stats.Errors.{
  Err, Errs, Result, ok, err, cause, wrap, join, nil, store_closed, corrupt, bad_version,
}
use casa_os_common.Stats.Floats.{Floats}
use casa_os_common.Stats.Store.Rings.{Rings}
use casa_os_common.Stats.Store.Sample.{join_all}
use casa_os_common.Stats.Store.Entry.{Entry, new_entry, commit}
use casa_os_common.Stats.Store.State.{Store, set_entry}
use casa_os_common.Stats.Store.Calls.{add_error, error_of}
use casa_os_common.Stats.Store.Sweep.{has_suffix, append_errors}

-- `errors.Is` for one of `errCorrupt` and `errVersion`, on errors that are not joined.
abbrev pub is_corrupt : Err → Bool
is_corrupt (cause corrupt) = true
is_corrupt (cause bad_version) = true
is_corrupt (cause _) = false
is_corrupt (wrap e) = is_corrupt e
is_corrupt (join es) = false

-- A file of the directory that is opened: `opened` is what `openRing` gives, the item and its ring, and
-- `renames` tells whether the file can be renamed.
pub record OpenEntry (R : Type 0) : Type 0 where
  pub name : Bytes
  pub is_dir : Bool
  pub opened : Result (Bytes × R)
  pub renames : Bool

-- `*Store`, with the lists that only `Quarantined` and `Skipped` read.
pub record Loaded (F R : Type 0) : Type 0 where
  pub store : Store F R
  pub quarantined : List Bytes
  pub skipped : List Bytes
  pub removed : List Bytes

module _ {F R : Type 0} (fl : Floats F) (rs : Rings F R) (base : Bytes → Bytes) where
  -- The error for a ring that stands under the name of another item.
  unfoldable pub checked : Bytes → Result (Bytes × R) → Result (Bytes × R)
  checked name (err x) = err x
  checked name (ok (item, r)) =
      if eq_bytes (base item) name then ok (item, r) else err (wrap (cause corrupt))

  abbrev pub add_item : Bytes → R → Store F R → Store F R
  add_item item r s = record s {
    heap = s.heap ++ new_entry fl rs r ∷ [];
    items = Map.put item (length s.heap) s.items;
  }

  -- A `*.ring` file.
  unfoldable pub load_ring : OpenEntry R → Loaded F R → Loaded F R
  unfolding checked
  load_ring d l = elim (checked d.name d.opened) [
    | ok (item, r) ↦ record l { store = add_item item r l.store }
    | err x ↦
        (if is_corrupt x
          then if d.renames
            then record l { quarantined = l.quarantined ++ d.name ∷ [] }
            else record l { skipped = l.skipped ++ d.name ∷ [] }
          else record l {
            skipped = l.skipped ++ d.name ∷ [];
            store = record l.store { refused = l.store.refused ++ d.name ∷ [] };
          })
  ]

  unfoldable pub load_entry : OpenEntry R → Loaded F R → Loaded F R
  unfolding load_ring
  load_entry d l =
      if d.is_dir
      then l
      else if has_suffix d.name (codes ".ring.tmp")
      then record l { removed = l.removed ++ d.name ∷ [] }
      else if has_suffix d.name (codes ".ring")
      then load_ring d l
      else l

  unfoldable pub load_all : List (OpenEntry R) → Loaded F R → Loaded F R
  unfolding load_entry
  load_all [] l = l
  load_all (d ∷ ds) l = load_all ds (load_entry d l)

  abbrev pub empty_store : Store F R
  empty_store = record { heap = []; items = []; refused = []; closed = false }

  -- `open`, on the entries that `ReadDir` gives
  unfoldable pub open_store : Result (List (OpenEntry R)) → Result (Loaded F R)
  unfolding load_all
  open_store (err x) = err x
  open_store (ok ds) =
      ok
        (load_all ds (record { store = empty_store; quarantined = []; skipped = []; removed = [] }))

  -- One turn of the loop of `Close`: the commit of the pending minute.
  unfoldable pub close_entry : Entry F R → Option Err × Option ℤ × Entry F R
  unfolding commit
  close_entry e =
      let e' = record e { closed = true; acc = none } in
      elim e.acc [
        | none ↦ (none, none, e')
        | some acc ↦
            (let p = commit fl rs e.acc_min acc e.ring in
              elim p.0 [
                | err x ↦ (some x, none, record e' { ring = p.1 })
                | ok u ↦ (none, some e.acc_min, record e' { ring = p.1 })
              ])
      ]

  abbrev pub add_hook : Bytes → Option ℤ → List (Bytes × ℤ) → List (Bytes × ℤ)
  add_hook k none hooks = hooks
  add_hook k (some m) hooks = (k, m) ∷ hooks

  unfoldable pub close_entries : Map ℕ → Store F R → Errs × List (Bytes × ℤ) × Store F R
  unfolding close_entry
  close_entries [] s = (nil, [], s)
  close_entries ((k, i) ∷ m) s = elim (get_elem? s.heap i) [
    | none ↦ close_entries m s
    | some e ↦
        (let (x, minute, e') = close_entry e in
          let (errs, hooks, s') = close_entries m (set_entry i e' s) in
          (add_error x errs, add_hook k minute hooks, s'))
  ]

  -- The deferred loop, after the hooks.
  unfoldable pub close_rings : Map ℕ → Store F R → Errs × Store F R
  close_rings [] s = (nil, s)
  close_rings ((k, i) ∷ m) s = elim (get_elem? s.heap i) [
    | none ↦ close_rings m s
    | some e ↦
        (let p = rs.close e.ring in
          let (errs, s') = close_rings m (set_entry i (record e { ring = p.1 }) s) in
          (add_error (error_of p.0) errs, s'))
  ]

  -- `Close`: the error, the calls of the hook, and the store.
  unfoldable pub close_store : Store F R → Option Err × List (Bytes × ℤ) × Store F R
  unfolding close_entries close_rings
  close_store s =
      if s.closed
      then (some (cause store_closed), [], s)
      else (let (errs, hooks, s') = close_entries s.items (record s { closed = true }) in
          let (errs', s'') = close_rings s.items s' in
          (join_all (append_errors errs errs'), hooks, s''))
