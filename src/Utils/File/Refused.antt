-- ===== src/Utils/File/Refused.antt =====
-- An archiveWriter that has recorded an error (utils/file/file.go).
use casa_os_common.Common.{
  suc, ◌≡◌, refl, sym, ap, ◌∙◌, arith, Option, none, some, List, [], ◌∷◌, Bytes, inl, inr,
  Option-cases,
}
use mathlib.Core.Path.{subst}
use casa_os_common.Utils.File.Archive.{
  first, Failure, archive, ArchiveWriter, World, fail, write_through, write, Program, ends, writes,
  run, Archiver, Phase, waits, ended, State,
}
use casa_os_common.Utils.File.Walk.{
  Paths, Selected, and_then, with_path, add_tree, add_trees, finish, result, begins, write_archive,
}

-- From `a` to `b`, nothing was written and the error stayed.
abbrev pub IsRefused : Failure → ArchiveWriter → ArchiveWriter → Type 0
IsRefused e a b = (b.written ≡ a.written) × (b.err ≡ some e)

fail_kept : (x : Option Failure) (a : ArchiveWriter) (e : Failure) → a.err ≡ some e → fail x a ≡ a
fail_kept x a e h =
    ap (λ o. record a { err = first o x }) h ∙ ap (λ o. record a { err = o }) (sym h)

write_through_refused :
    (w : World) (p : Bytes) (a : ArchiveWriter) (e : Failure)
    → a.err ≡ some e
    → write_through w p a a.err ≡ ((0, some e), record a { calls = suc a.calls })
write_through_refused w p a e h = ap (write_through w p a) h

pub write_refused :
    (w : World) (p : Bytes) (a : ArchiveWriter) (e : Failure)
    → a.err ≡ some e
    → write w p a ≡ ((0, some e), record a { calls = suc a.calls })
unfolding write
write_refused w p a e h =
    ap (λ b. write_through w p b b.err) (fail_kept (w.ctx_err a.calls) a e h)
    ∙ write_through_refused w p a e h

pub run-IsRefused {ℓ} :
    {R : Type ℓ} (w : World) (pr : Program R) (a : ArchiveWriter) (e : Failure)
    → a.err ≡ some e
    → IsRefused e a (run w pr a).1
unfolding run
run-IsRefused w (ends r) a e h = (refl, h)
run-IsRefused w (writes p k) a e h =
    subst (λ q. IsRefused e a (run w (k q.0) q.1).1) (sym (write_refused w p a e h))
      (run-IsRefused w (k (0, some e)) (record a { calls = suc a.calls }) e h)

fail-some : (e : Failure) (a : ArchiveWriter) → (f : Failure) × ((fail (some e) a).err ≡ some f)
fail-some e a = elim (Option-cases a.err) [
  | inl q ↦ (e, ap (λ o. first o (some e)) q)
  | inr (f, q) ↦ (f, ap (λ o. first o (some e)) q)
]

finish-IsRefused :
    {S : Type 0} (paths : Paths) (w : World) (arch : Archiver S) (ph : Phase S)
    (out : ArchiveWriter) (e : Failure)
    → out.err ≡ some e
    → IsRefused e out (finish paths w arch ph out).1
finish-IsRefused paths w arch (ended r) out e h = (refl, h)
finish-IsRefused paths w arch (waits s) out e h = run-IsRefused w (arch.finish s) out e h

-- The writer has recorded an error.
abbrev HasRecorded : {S : Type 0} → State S → Type 0
HasRecorded st = (f : Failure) × (st.out.err ≡ some f)

and_then-HasRecorded :
    {S : Type 0} (p : Bytes) (x : Option Failure × State S)
    (rest : State S → Option Failure × State S) (e : Failure)
    → ((st : State S) → (rest st).0 ≡ some e → HasRecorded (rest st).1)
    → (and_then (with_path p x) rest).0 ≡ some e
    → HasRecorded (and_then (with_path p x) rest).1
and_then-HasRecorded p (none, st) rest e ih h = ih st h
and_then-HasRecorded p (some f, st) rest e ih h = fail-some (archive p f) st.out

add_trees-HasRecorded :
    {S : Type 0} (paths : Paths) (w : World) (arch : Archiver S) (common_path : Bytes)
    (sels : List Selected) (st : State S) (e : Failure)
    → (add_trees paths w arch common_path sels st).0 ≡ some e
    → HasRecorded (add_trees paths w arch common_path sels st).1
unfolding add_trees
add_trees-HasRecorded paths w arch cp [] st e h = absurd (ground arith)
add_trees-HasRecorded paths w arch cp (p ∷ ps) st e h =
    and_then-HasRecorded p.given (add_tree paths w arch cp p st) (add_trees paths w arch cp ps) e
      (λ st'. add_trees-HasRecorded paths w arch cp ps st' e) h

-- The result is the error of the loop, and what is written is what was written before.
abbrev pub IsUnterminated : Failure → List Bytes → Option Failure × ArchiveWriter → Type 0
IsUnterminated e before q = (q.0 ≡ some e) × (q.1.written ≡ before)

result-IsUnterminated :
    {S : Type 0} (paths : Paths) (w : World) (arch : Archiver S) (r : Option Failure) (st : State S)
    (e : Failure)
    → r ≡ some e
    → HasRecorded st
    → IsUnterminated e st.out.written (result paths w arch r (finish paths w arch st.phase st.out))
result-IsUnterminated paths w arch none st e h (f, q) = absurd (ground arith)
result-IsUnterminated paths w arch (some d) st e h (f, q) =
    (h, (finish-IsRefused paths w arch st.phase st.out f q).0)

-- Where the loop of WriteArchive ends with an error, because of a path, the archiver or the context,
-- WriteArchive returns it, and whatever the archiver still does, w is given nothing more: the
-- archive is left without its end.
pub write_archive-IsUnterminated :
    {S : Type 0} (paths : Paths) (w : World) (arch : Archiver S) (s : S) (common_path : Bytes)
    (sels : List Selected) (e : Failure)
    → (add_trees paths w arch common_path sels (begins paths w arch s)).0 ≡ some e
    → IsUnterminated e
        (add_trees paths w arch common_path sels (begins paths w arch s)).1.out.written
        (write_archive paths w arch s common_path sels)
unfolding write_archive
write_archive-IsUnterminated paths w arch s cp [] e h = absurd (unfold add_trees in ground arith)
write_archive-IsUnterminated paths w arch s cp (p ∷ ps) e h =
    let q = add_trees paths w arch cp (p ∷ ps) (begins paths w arch s) in
    result-IsUnterminated paths w arch q.0 q.1 e h
      (add_trees-HasRecorded paths w arch cp (p ∷ ps) (begins paths w arch s) e h)
