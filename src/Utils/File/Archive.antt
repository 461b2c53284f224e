-- ===== src/Utils/File/Archive.antt =====
-- `archiveWriter` of utils/file/file.go, and what its `WriteArchive` and `addTree` work on. The archiver is
-- any program that writes through the archiveWriter while it has a job or after the jobs are closed. What
-- the calls of the file system give is a parameter, and so is what a write to w gives, and when the context
-- is done.
use casa_os_common.Common.{
  ◌⊎◌, ℕ, suc, Bool, true, false, Option, none, some, List, [], ◌∷◌, ◌++◌, Bytes,
}

-- The errors: those of calls, `fs.ErrNotExist` and `io.EOF` among them, and those of this file.
pub data Failure : Type 0 where
  not_exist : Failure
  call : ℕ → Failure
  no_path stopped_early eof unexpected_eof : Failure
  not_under changed : Bytes → Failure
  archive : Bytes → Failure → Failure

-- `errors.Is(err, fs.ErrNotExist)`
abbrev pub is_not_exist : Failure → Bool
is_not_exist not_exist = true
is_not_exist (archive p f) = is_not_exist f
is_not_exist _ = false

-- `archiveWriter`: the error that is recorded, with what `w` was given to write, and how many calls
-- of Write there were.
pub record ArchiveWriter : Type 0 where
  pub err : Option Failure
  pub written : List Bytes
  pub calls : ℕ

-- What each call gives: `ctx.Err()` at a Write, `w.Write` at a Write, and at an entry the error of the
-- context where the select takes its case.
pub record World : Type 0 where
  pub ctx_err : ℕ → Option Failure
  pub sink : ℕ → Bytes → ℕ × Option Failure
  pub cancelled : ℕ → Option Failure

-- The error that stays: the one that came first.
abbrev pub first : Option Failure → Option Failure → Option Failure
first none e = e
first (some f) e = some f

-- `fail`; the error that it returns is the one of the new state.
abbrev pub fail : Option Failure → ArchiveWriter → ArchiveWriter
fail e a = record a { err = first a.err e }

-- The rest of `Write`, behind the look at the context.
abbrev pub write_through :
    World → Bytes → ArchiveWriter → Option Failure → (ℕ × Option Failure) × ArchiveWriter
write_through w p a (some e) = ((0, some e), record a { calls = suc a.calls })
write_through w p a none =
    let result = w.sink a.calls p in
    (result, fail result.1 (record a { written = a.written ++ p ∷ []; calls = suc a.calls }))

-- `archiveWriter.Write`
unfoldable pub write : World → Bytes → ArchiveWriter → (ℕ × Option Failure) × ArchiveWriter
write w p a = let b = fail (w.ctx_err a.calls) a in write_through w p b b.err

-- What an archiver does in between: writes, whose results it may use, and an end.
pub data Program {ℓ} (R : Type ℓ) : Type ℓ where
  ends : R → Program R
  writes : Bytes → (ℕ × Option Failure → Program R) → Program R

unfoldable pub run {ℓ} : {R : Type ℓ} → World → Program R → ArchiveWriter → R × ArchiveWriter
run w (ends r) a = (r, a)
run w (writes p k) a = let q = write w p a in run w (k q.0) q.1

-- `archives.FileInfo`, as it is handed to the archiver: `opens` where it has a function Open.
pub record Entry : Type 0 where
  pub name_in_archive : Bytes
  pub link_target : Bytes
  pub opens : Bool

-- An archiver takes a job and replies, or has stopped before it with an error or without.
pub data Answer (S : Type 0) : Type 0 where
  replied : Option Failure → S → Answer S
  stopped : Option Failure → Answer S

-- `archives.ArchiverAsync`: `job` up to its reply, and `finish`, from the close of the jobs to the
-- return of ArchiveAsync.
pub record Archiver (S : Type 0) : Type 0 where
  pub job : S → Entry → Program (Answer S)
  pub finish : S → Program (Option Failure)

-- The goroutine of the archiver waits for a job, or has ended with an error or without.
pub data Phase (S : Type 0) : Type 0 where
  waits : S → Phase S
  ended : Option Failure → Phase S

pub record State (S : Type 0) : Type 0 where
  pub phase : Phase S
  pub out : ArchiveWriter
  pub adds : ℕ

-- `info.Mode()`
pub data Mode : Type 0 where
  directory symlink regular special : Mode

-- One call of the function given to WalkDir, with what it finds: the error that it is given,
-- `ctx.Err()`, `Lstat` and `Readlink`.
pub record Visit : Type 0 where
  pub path : Bytes
  pub walk_err : Option Failure
  pub ctx_err : Option Failure
  pub lstat : Failure ⊎ Mode
  pub readlink : Failure ⊎ Bytes
