-- ===== src/Stats/Store/Sweep.antt =====
-- `Sweep` of pkg/stats/store.go.
use casa_os_common.Common.{
  ℕ, ◌-◌, ◌*◌, Bool, not, ◌&&◌, ◌||◌, Option, none, some, List, [], ◌∷◌, length, leb, if◌then◌else◌,
  get_elem?, drop, Bytes, eq_bytes, codes,
}
use casa_os_common.Common.Int.{ℤ, pos, ◌-ℤ◌, eq_ℤ, ltb_ℤ, leb_ℤ}
use casa_os_common.Common.Map.{Map}
use casa_os_common.Stats.Errors.{Err, Errs, Result, ok, err, cause, nil, cons, store_closed}
use casa_os_common.Stats.Store.Clock.{Time, unix, second}
use casa_os_common.Stats.Store.Rings.{Rings}
use casa_os_common.Stats.Store.Sample.{join_all}
use casa_os_common.Stats.Store.Entry.{Entry}
use casa_os_common.Stats.Store.State.{Store}
use casa_os_common.Stats.Store.Calls.{add_error, remove_item}

-- `retention`, in nanoseconds
abbrev pub retention : ℕ
retention = 7 * 24 * 3600 * second

-- `strings.HasSuffix(s, t)`
abbrev pub has_suffix : Bytes → Bytes → Bool
has_suffix s t = leb (length t) (length s) && eq_bytes (drop (length s - length t) s) t

-- `append(errs, a...)`
abbrev pub append_errors : Errs → Errs → Errs
append_errors nil b = b
append_errors (cons e a) b = cons e (append_errors a b)

-- An entry of the directory; `modified` is what `Info` gives, in Unix seconds.
pub record DirEntry : Type 0 where
  pub name : Bytes
  pub is_dir : Bool
  pub modified : Result ℤ

-- What `Sweep` does with a file of the directory.
pub data FileFate : Type 0 where
  keep delete : FileFate
  fail : Err → FileFate

unfoldable pub file_fate : ℤ → DirEntry → FileFate
file_fate cut d =
    if d.is_dir
    then keep
    else if has_suffix d.name (codes ".ring.tmp")
    then delete
    else if has_suffix d.name (codes ".ring.bad")
    then elim d.modified [ err x ↦ fail x | ok t ↦ if leb_ℤ t cut then delete else keep ]
    else keep

-- The second loop: the errors, and the files that are deleted.
unfoldable pub sweep_files : (Bytes → Option Err) → ℤ → List DirEntry → Errs × List Bytes
unfolding file_fate
sweep_files remove_file cut [] = (nil, [])
sweep_files remove_file cut (d ∷ ds) =
    let (errs, deleted) = sweep_files remove_file cut ds in
    elim (file_fate cut d) [
      | keep ↦ (errs, deleted)
      | fail x ↦ (cons x errs, deleted)
      | delete ↦ (add_error (remove_file d.name) errs, d.name ∷ deleted)
    ]

module _ {F R : Type 0} (rs : Rings F R) (remove_ring : Bytes → Option Err) where
  -- The time of the newest data of an entry, in Unix seconds: its newest minute, or its last sample.
  unfoldable pub newest_of : Entry F R → Result ℤ
  newest_of e = elim (rs.newest_minute e.ring) [
    | err x ↦ err x
    | ok m ↦ elim e.last [
      | none ↦ ok (pos (m * 60))
      | some t ↦ ok (if ltb_ℤ (pos (m * 60)) (unix t) then unix t else pos (m * 60))
    ]
  ]

  -- Whether an item is forgotten, or without data, since the cut.
  unfoldable pub is_expired : ℤ → ℤ → ℤ → Bool
  is_expired cut forgotten newest =
      not (eq_ℤ forgotten (pos 0)) && leb_ℤ forgotten cut || leb_ℤ newest cut

  -- The first loop: `m` are the items of the store that are left to see.
  unfoldable pub sweep_items : ℤ → Map ℕ → Store F R → Errs × Store F R
  unfolding newest_of is_expired remove_item
  sweep_items cut [] s = (nil, s)
  sweep_items cut ((k, i) ∷ m) s = elim (get_elem? s.heap i) [
    | none ↦ sweep_items cut m s
    | some e ↦ elim (newest_of e) [
      | err x ↦ (let (errs, s') = sweep_items cut m s in (cons x errs, s'))
      | ok newest ↦
          (let (x, removed) = remove_item rs remove_ring k s in
            let go = is_expired cut (rs.forgotten_at e.ring) newest in
            let (errs, s') = sweep_items cut m (if go then removed else s) in
            (if go then add_error x errs else errs, s'))
    ]
  ]

  -- `Sweep`: the error, the files deleted besides rings, and the store. `ents` is what `ReadDir` gives.
  unfoldable pub sweep :
      (Bytes → Option Err)
      → Time
      → Result (List DirEntry)
      → Store F R
      → Option Err × List Bytes × Store F R
  unfolding sweep_items sweep_files
  sweep remove_file now ents s =
      if s.closed
      then (some (cause store_closed), [], s)
      else (let cut = unix (now -ℤ pos retention) in
          let (errs, s') = sweep_items cut s.items s in
          elim ents [
            | err x ↦ (join_all (append_errors errs (cons x nil)), [], s')
            | ok ds ↦
                (let (errs', deleted) = sweep_files remove_file cut ds in
                  (join_all (append_errors errs errs'), deleted, s'))
          ])
