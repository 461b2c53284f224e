-- ===== src/Utils/Command/Scripts.antt =====
-- The scripts that `ExecuteScripts` of utils/command/command.go runs.
use casa_os_common.Common.{
  ◌≡◌, refl, arith, ap, true, false, none, some, List, [], ◌∷◌, Bytes, Option-cases, inl, inr,
}
use casa_os_common.Utils.Command.{
  DirEntry, Run, ScriptResult, run_script, run_entries, listed, outcome_of, execute_scripts,
}

-- The regular files of a directory.
abbrev pub regular_files : List DirEntry → List DirEntry
regular_files [] = []
regular_files (d ∷ ds) = elim d.regular [
  | none ↦ regular_files ds
  | some b ↦ elim b [ true ↦ d ∷ regular_files ds | false ↦ regular_files ds ]
]

module _ (run : List Bytes → Bytes → Run) where
  -- Their results.
  abbrev pub results : List DirEntry → List ScriptResult
  results [] = []
  results (d ∷ ds) = run_script run d ∷ results ds

  -- The names of the results with an error.
  abbrev pub failed_names : List ScriptResult → List Bytes
  failed_names [] = []
  failed_names (r ∷ rs) = elim r.error [
    | none ↦ failed_names rs
    | some x ↦ r.name ∷ failed_names rs
  ]

  run_entries_regular :
      (ds : List DirEntry)
      → run_entries run ds ≡ (results (regular_files ds), failed_names (results (regular_files ds)))
  unfolding run_entries
  run_entries_regular [] = refl
  run_entries_regular (d ∷ ds) = elim (Option-cases d.regular) [
    | inl n ↦ ground (arith, n, run_entries_regular ds)
    | inr (true, h) ↦ elim (Option-cases (run_script run d).error) [
      | inl e ↦ ground (arith, h, e, run_entries_regular ds)
      | inr (x, e) ↦ ground (arith, h, e, run_entries_regular ds)
    ]
    | inr (false, h) ↦ ground (arith, h, run_entries_regular ds)
  ]

  -- Where the directory can be listed, ExecuteScripts runs each of its regular files once, in the order of
  -- the list, whether others fail or not, and returns nil or the names of those that failed.
  execute_scripts_listed :
      (ds : List DirEntry)
      → execute_scripts run (listed ds)
        ≡ (results (regular_files ds), outcome_of (failed_names (results (regular_files ds))))
  unfolding execute_scripts
  execute_scripts_listed ds = ap (λ p. (p.0, outcome_of p.1)) (run_entries_regular ds)
