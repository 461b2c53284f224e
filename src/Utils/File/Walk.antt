-- ===== src/Utils/File/Walk.antt =====
-- `addTree`, `entryName`, `gone` and `WriteArchive` of utils/file/file.go. The functions of package
-- filepath are parameters, and so is what the calls of the file system give for each selected path.
use casa_os_common.Common.{
  ℕ, suc, Bool, true, false, not, ◌&&◌, Option, none, some, List, [], ◌∷◌, ◌++◌, ◌⊎◌, inl, inr,
  if◌then◌else◌, ◌==◌, Bytes, codes, eq_bytes,
}
use casa_os_common.Utils.File.Archive.{
  first, Failure, no_path, stopped_early, not_under, archive, is_not_exist, ArchiveWriter, World,
  fail, run, Entry, Answer, replied, stopped, Archiver, Phase, waits, ended, State, Mode, directory,
  symlink, regular, special, Visit,
}

-- `gone`
abbrev pub gone : Bytes → Bytes → Option Failure → Bool
gone p start none = false
gone p start (some e) = not (eq_bytes p start) && is_not_exist e

-- `filepath.Clean`, `Rel`, `IsLocal`, `Base` and `path.Join`
pub record Paths : Type 0 where
  pub clean : Bytes → Bytes
  pub rel : Bytes → Bytes → Failure ⊎ Bytes
  pub is_local : Bytes → Bool
  pub base : Bytes → Bytes
  pub join : Bytes → Bytes → Bytes

-- `strings.TrimPrefix(s, "/")`
abbrev pub trim_slash : Bytes → Bytes
trim_slash [] = []
trim_slash (c ∷ s) = if c == b'/' then s else c ∷ s

-- What a visit comes to: nothing, an entry for the archiver, or an error that ends the walk.
pub data Step : Type 0 where
  skips : Step
  adds : Entry → Step
  breaks : Failure → Step

abbrev pub unless_gone : Bytes → Bytes → Failure → Step
unless_gone p start e = if gone p start (some e) then skips else breaks e

-- A selected path as it was given, and what the calls of addTree give: `EvalSymlinks`; `os.Stat` of
-- the target, whether it is a directory; `os.OpenRoot`; and the visits that WalkDir makes, as far as
-- no visit ends it.
pub record Selected : Type 0 where
  pub given : Bytes
  pub target : Failure ⊎ Bytes
  pub is_dir : Failure ⊎ Bool
  pub open_root : Option Failure
  pub visits : List Visit

-- What the walk of a path starts with.
pub record Start : Type 0 where
  pub name : Bytes
  pub start : Bytes
  pub skip_start : Bool

module _ (paths : Paths) where
  -- `entryName`
  unfoldable pub entry_name : Bytes → Bytes → Failure ⊎ Bytes
  entry_name common_path selected =
      let common = if eq_bytes common_path [] then codes "/" else common_path in
      elim (paths.rel common selected) [
        | inl e ↦ inl (not_under common)
        | inr rel ↦
            if not (paths.is_local rel)
            then inl (not_under common)
            else inr (trim_slash (paths.join (paths.base common) rel))
      ]

  -- The function that is given to WalkDir, up to its call of add.
  unfoldable pub visit : Start → Visit → Step
  visit s v = elim (first v.walk_err v.ctx_err) [
    | some e ↦ unless_gone v.path s.start e
    | none ↦ elim v.lstat [
      | inl e ↦ unless_gone v.path s.start e
      | inr mode ↦ add_mode (named v.path) mode
    ]
  ]
    where
      first_err : Option Failure → Option Failure → Option Failure
      first_err none e = e
      first_err (some f) e = some f

      named : Bytes → Entry
      named p = record {
        name_in_archive = if not (eq_bytes p s.start) then paths.join s.name p else s.name;
        link_target = [];
        opens = false;
      }

      add_mode : Entry → Mode → Step
      add_mode f directory =
          if eq_bytes v.path s.start && s.skip_start
          then skips
          else adds (record f { name_in_archive = f.name_in_archive ++ codes "/" })
      add_mode f symlink = elim v.readlink [
        | inl e ↦ unless_gone v.path s.start e
        | inr to ↦ adds (record f { link_target = to })
      ]
      add_mode f regular = adds (record f { opens = true })
      add_mode f special = skips

  -- `addTree` before its walk
  unfoldable pub prepare : Bytes → Selected → Failure ⊎ Start
  prepare common_path sel =
      let selected = paths.clean sel.given in
      elim (entry_name common_path selected) [
        | inl e ↦ inl e
        | inr name ↦ elim sel.target [
          | inl e ↦ inl e
          | inr target ↦ elim sel.is_dir [
            | inl e ↦ inl e
            | inr is_dir ↦ elim sel.open_root [
              | some e ↦ inl e
              | none ↦ inr (start_of name target is_dir selected)
            ]
          ]
        ]
      ]
    where
      start_of : Bytes → Bytes → Bool → Bytes → Start
      start_of name target is_dir selected = record {
        name = name;
        start = if not is_dir then paths.base target else codes ".";
        skip_start = is_dir && eq_bytes selected (paths.clean common_path);
      }

module _ {S : Type 0} (w : World) (arch : Archiver S) where
  -- The state behind a job, with what `add` returns.
  abbrev pub answered : Answer S × ArchiveWriter → ℕ → Option Failure × State S
  answered (replied e s, out) n = (e, record { phase = waits s; out = out; adds = n })
  answered (stopped e, out) n =
      (some stopped_early, record { phase = ended e; out = out; adds = n })

  abbrev pub offer : Entry → State S → Phase S → Option Failure × State S
  offer f st (ended e) = (some stopped_early, record st { adds = suc st.adds })
  offer f st (waits s) = answered (run w (arch.job s f) st.out) (suc st.adds)

  -- The select takes the case of the context where that has an error.
  abbrev pub select : Entry → State S → Option Failure → Option Failure × State S
  select f st (some e) = (some e, record st { adds = suc st.adds })
  select f st none = offer f st st.phase

  -- `add`
  unfoldable pub add : Entry → State S → Option Failure × State S
  add f st = select f st (w.cancelled st.adds)

-- Only where there is no error, the loop goes on.
abbrev pub and_then :
    {S : Type 0}
    → Option Failure × State S
    → (State S → Option Failure × State S)
    → Option Failure × State S
and_then (none, st) rest = rest st
and_then (some e, st) rest = (some e, st)

-- An error of a path is recorded and ends the loop.
abbrev pub with_path : {S : Type 0} → Bytes → Option Failure × State S → Option Failure × State S
with_path p (none, st) = (none, st)
with_path p (some e, st) =
    (some (archive p e), record st { out = fail (some (archive p e)) st.out })

module _ (paths : Paths) {S : Type 0} (w : World) (arch : Archiver S) where
  abbrev pub walk_step : State S → Step → Option Failure × State S
  walk_step st skips = (none, st)
  walk_step st (adds f) = add w arch f st
  walk_step st (breaks e) = (some e, st)

  -- The walk: a step that ends it is its last.
  unfoldable pub walk : Start → List Visit → State S → Option Failure × State S
  walk s [] st = (none, st)
  walk s (v ∷ vs) st = and_then (walk_step st (visit paths s v)) (λ st'. walk s vs st')

  abbrev pub walk_from : Failure ⊎ Start → List Visit → State S → Option Failure × State S
  walk_from (inl e) vs st = (some e, st)
  walk_from (inr s) vs st = walk s vs st

  -- `addTree`
  unfoldable pub add_tree : Bytes → Selected → State S → Option Failure × State S
  add_tree common_path sel st = walk_from (prepare paths common_path sel) sel.visits st

  -- The loop of WriteArchive over the paths.
  unfoldable pub add_trees : Bytes → List Selected → State S → Option Failure × State S
  add_trees common_path [] st = (none, st)
  add_trees common_path (p ∷ ps) st =
      and_then (with_path p.given (add_tree common_path p st)) (λ st'. add_trees common_path ps st')

  -- From `close(jobs)` on: the archiver's error with the writer.
  abbrev pub finish : Phase S → ArchiveWriter → Option Failure × ArchiveWriter
  finish (ended e) out = (e, out)
  finish (waits s) out = run w (arch.finish s) out

  -- The first error of the three; the last is that of `out.fail(nil)`.
  abbrev pub result :
      Option Failure → Option Failure × ArchiveWriter → Option Failure × ArchiveWriter
  result (some e) (arch_err, out) = (some e, out)
  result none (some e, out) = (some e, out)
  result none (none, out) = (out.err, out)

  abbrev pub no_writes : ArchiveWriter
  no_writes = record { err = none; written = []; calls = 0 }

  abbrev pub begins : S → State S
  begins s = record { phase = waits s; out = no_writes; adds = 0 }

  -- `WriteArchive`, for an archiver that starts with `s`: the error, and the writer at the end
  unfoldable pub write_archive : S → Bytes → List Selected → Option Failure × ArchiveWriter
  write_archive s common_path [] = (some no_path, no_writes)
  write_archive s common_path (p ∷ ps) =
      let q = add_trees common_path (p ∷ ps) (begins s) in result q.0 (finish q.1.phase q.1.out)
