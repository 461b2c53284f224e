-- ===== src/Utils/Command.antt =====
-- The start scripts of utils/command/command.go. Strings are ASCII where they are trimmed.
pub mod Output
pub mod Shebang
pub mod Scripts
mod Tests
use casa_os_common.Common.{
  ℕ, zero, suc, ◌+◌, ◌-◌, ◌*◌, Bool, true, false, not, ◌&&◌, ◌||◌, Option, none, some, List, [],
  ◌∷◌, ◌++◌, length, ◌==◌, ltb, leb, if◌then◌else◌, take, drop, Bytes, codes,
}
use casa_os_common.Common.Int.{ℤ, negsuc}
use casa_os_common.Utils.Version.{trim_space, drop_spaces, drop_end_spaces}

-- `tail`
pub record Tail : Type 0 where
  pub buf : Bytes
  pub truncated : Bool

abbrev pub script_output_limit : ℕ
script_output_limit = 4096

-- `Write`, with any limit
unfoldable pub write_tail : ℕ → Bytes → Tail → Tail
write_tail limit p t =
    let buf = t.buf ++ p in
    if ltb limit (length buf)
    then record { buf = drop (length buf - limit) buf; truncated = true }
    else record t { buf = buf }

-- The writes of a script, one after the other.
unfoldable pub write_all : ℕ → List Bytes → Tail → Tail
unfolding write_tail
write_all limit [] t = t
write_all limit (p ∷ ps) t = write_all limit ps (write_tail limit p t)

-- `String`
abbrev pub tail_string : Tail → Bytes
tail_string t =
    let output = trim_space t.buf in if t.truncated then codes "..." ++ output else output

-- `bytes.Cut(head, "\n")`, its first part
unfoldable pub until_newline : Bytes → Bytes
until_newline [] = []
until_newline (c ∷ s) = let rest = until_newline s in if c == 10 then [] else c ∷ rest

-- `strings.TrimRight(line, "\r")`
unfoldable pub trim_return : Bytes → Bytes
trim_return [] = []
trim_return (c ∷ s) = add_front c (trim_return s)
  where
    add_front : ℕ → Bytes → Bytes
    add_front c [] = if c == 13 then [] else c ∷ []
    add_front c (d ∷ t) = c ∷ d ∷ t

-- `firstLine`, on the contents of the file, `none` where it cannot be read
unfoldable pub first_line : Option Bytes → Option Bytes
unfolding until_newline trim_return
first_line none = none
first_line (some contents) = some (trim_return (until_newline (take 256 contents)))

-- `strings.IndexAny(rest, " \t")`: what is before the first blank, and what is behind it, if there is one
unfoldable pub split_blank : Bytes → Bytes × Option Bytes
split_blank [] = ([], none)
split_blank (c ∷ s) =
    let rest = split_blank s in if c == 32 || c == 9 then ([], some s) else (c ∷ rest.0, rest.1)

-- The words of the rest of a shebang line, trimmed.
unfoldable pub words_of : Bytes → List Bytes
unfolding split_blank
words_of [] = codes "/bin/sh" ∷ []
words_of (c ∷ s) = elim (split_blank (c ∷ s)).1 [
  | none ↦ (c ∷ s) ∷ []
  | some arg ↦ (split_blank (c ∷ s)).0 ∷ trim_space arg ∷ []
]

-- `interpreter`
unfoldable pub interpreter : Bytes → List Bytes
unfolding words_of
interpreter (c ∷ d ∷ s) =
    if c == b'#' && d == b'!' then words_of (trim_space s) else codes "/bin/sh" ∷ []
interpreter _ = codes "/bin/sh" ∷ []

-- How `cmd.Run` ends: well, well but with its output still open, or with an error; `is_late` tells that
-- the time limit has passed.
pub data Ending : Type 0 where
  succeeded wait_delay : Ending
  broke : (is_late : Bool) → Ending

pub record Run : Type 0 where
  pub ending : Ending
  pub exit_code : ℤ
  pub writes : List Bytes

pub data ScriptError : Type 0 where
  unreadable timed_out run_failed : ScriptError

-- `scriptResult`; the duration is left out
pub record ScriptResult : Type 0 where
  pub name : Bytes
  pub interpreter : List Bytes
  pub exit_code : ℤ
  pub output : Bytes
  pub warning : Bool
  pub error : Option ScriptError

abbrev pub error_of : Ending → Option ScriptError
error_of succeeded = none
error_of wait_delay = none
error_of (broke true) = some timed_out
error_of (broke false) = some run_failed

abbrev pub warning_of : Ending → Bool
warning_of wait_delay = true
warning_of _ = false

-- An entry of the directory; `regular` is what `os.Stat` tells of it, `none` on an error.
pub record DirEntry : Type 0 where
  pub name : Bytes
  pub regular : Option Bool
  pub contents : Option Bytes

module _ (run : List Bytes → Bytes → Run) where
  -- `runScript`; `run` runs a command with the script as last argument.
  unfoldable pub run_script : DirEntry → ScriptResult
  unfolding first_line interpreter write_all
  run_script d = elim (first_line d.contents) [
    | none ↦ record {
      name = d.name;
      interpreter = [];
      exit_code = negsuc 0;
      output = [];
      warning = false;
      error = some unreadable;
    }
    | some line ↦
        (let argv = interpreter line in
          let r = run argv d.name in
          record {
            name = d.name;
            interpreter = argv;
            exit_code = r.exit_code;
            output =
                tail_string
                  (write_all script_output_limit r.writes (record { buf = []; truncated = false }));
            warning = warning_of r.ending;
            error = error_of r.ending;
          })
  ]

  -- The loop of `ExecuteScripts`: the results reported, and the scripts that failed.
  unfoldable pub run_entries : List DirEntry → List ScriptResult × List Bytes
  unfolding run_script
  run_entries [] = ([], [])
  run_entries (d ∷ ds) =
      let rest = run_entries ds in
      let r = run_script d in
      elim d.regular [
        | none ↦ rest
        | some false ↦ rest
        | some true ↦ (r ∷ rest.0, elim r.error [ none ↦ rest.1 | some x ↦ r.name ∷ rest.1 ])
      ]

-- What `os.ReadDir` gives.
pub data Listing : Type 0 where
  missing unlisted : Listing
  listed : List DirEntry → Listing

-- What `ExecuteScripts` returns: nil, the error of `ReadDir`, or the failed scripts.
pub data Outcome : Type 0 where
  fine not_read : Outcome
  failures : List Bytes → Outcome

abbrev pub outcome_of : List Bytes → Outcome
outcome_of [] = fine
outcome_of (n ∷ ns) = failures (n ∷ ns)

-- `ExecuteScripts`: the results reported and what it returns
unfoldable pub execute_scripts : (List Bytes → Bytes → Run) → Listing → List ScriptResult × Outcome
unfolding run_entries
execute_scripts run missing = ([], fine)
execute_scripts run unlisted = ([], not_read)
execute_scripts run (listed ds) =
    let (reports, failed) = run_entries run ds in (reports, outcome_of failed)
