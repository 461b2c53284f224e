-- ===== src/Stats/Store/State.antt =====
-- The state of the store and its lookups (`Store` and `entry` of pkg/stats/store.go).
-- Entries are shared by pointer: `heap` holds them, and a call keeps the index of the one it works on
-- even when the name is removed from `items` meanwhile.
use casa_os_common.Common.{
  ℕ, suc, Bool, false, Option, none, some, List, [], ◌∷◌, ◌++◌, length, leb, if◌then◌else◌,
  get_elem?, set, Bytes,
}
use casa_os_common.Common.Int.{pos, eq_ℤ}
use casa_os_common.Common.Map
use casa_os_common.Common.Map.{Map}
use casa_os_common.Stats.Errors.{
  Result, ok, err, cause, wrap, store_closed, too_many_items, ring_skipped,
}
use casa_os_common.Stats.Limits.{max_items}
use casa_os_common.Stats.Floats.{Floats}
use casa_os_common.Stats.Rules.{contains}
use casa_os_common.Stats.Store.Rings.{Rings}
use casa_os_common.Stats.Store.Entry.{Entry, new_entry}

-- `Store`: `refused` holds the names of ring files.
pub record Store (F R : Type 0) : Type 0 where
  pub heap : List (Entry F R)
  pub items : Map ℕ
  pub refused : List Bytes
  pub closed : Bool

abbrev pub index_result : ℕ → Result (Unit {0}) → Result ℕ
index_result i (ok u) = ok i
index_result i (err e) = err e

module _ {F R : Type 0} (rs : Rings F R) where
  -- `x.ring.ForgottenAt() == 0`
  abbrev pub is_alive : Entry F R → Bool
  is_alive e = eq_ℤ (rs.forgotten_at e.ring) (pos 0)

  abbrev pub alive_at : List (Entry F R) → ℕ → Bool
  alive_at heap i = elim (get_elem? heap i) [ none ↦ false | some e ↦ is_alive e ]

  -- The loop that counts the live items.
  unfoldable pub count_live : List (Entry F R) → Map ℕ → ℕ
  count_live heap [] = 0
  count_live heap ((k, i) ∷ m) =
      let rest = count_live heap m in if alive_at heap i then suc rest else rest

module _ {F R : Type 0} where
  -- `s.items[name]`, with the index of the entry
  unfoldable pub find : Bytes → Store F R → Option (ℕ × Entry F R)
  find name s = elim (Map.get name s.items) [
    | none ↦ none
    | some i ↦ elim (get_elem? s.heap i) [ none ↦ none | some e ↦ some (i, e) ]
  ]

  abbrev pub set_entry : ℕ → Entry F R → Store F R → Store F R
  set_entry i e s = record s { heap = set s.heap i e }

module _ {F R : Type 0} (fl : Floats F) (rs : Rings F R) (base : Bytes → Bytes) where
  -- `entry`: the live entry of a name; `base` gives the name of its file, and `created` is what
  -- `createRing` returns, if it is called.
  unfoldable pub entry_of : Result R → Bytes → Store F R → Result ℕ × Store F R
  unfolding find count_live
  entry_of created name s = if s.closed then (err (cause store_closed), s) else elim (find name s) [
    | some (i, e) ↦
        (let p = rs.set_forgotten (pos 0) e.ring in
          if is_alive rs e
          then (ok i, s)
          else if leb max_items (count_live rs s.heap s.items)
          then (err (cause too_many_items), s)
          else (index_result i p.0, set_entry i (record e { ring = p.1 }) s))
    | none ↦
        (if leb max_items (count_live rs s.heap s.items)
          then (err (cause too_many_items), s)
          else if contains s.refused (base name)
          then (err (wrap (cause ring_skipped)), s)
          else elim created [
            | err x ↦ (err x, s)
            | ok r ↦ (
              ok (length s.heap),
              record s {
                heap = s.heap ++ new_entry fl rs r ∷ [];
                items = Map.put name (length s.heap) s.items;
              },
            )
          ])
  ]
