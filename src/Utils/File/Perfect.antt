-- ===== src/Utils/File/Perfect.antt =====
-- Programs that write without an error (utils/file/file.go).
use casa_os_common.Common.{
  ℕ, ◌≡◌, refl, sym, ap, ◌∙◌, arith, Option, none, some, List, [], ◌∷◌, ◌++◌, length, Bytes,
}
use casa_os_common.Utils.File.Archive.{
  Failure, ArchiveWriter, World, fail, first, write_through, write, Program, ends, writes, run,
}
use mathlib.Core.List.{append_assoc, append-nil}

-- The archiver's program over a w that takes everything: its end, with what it has written.
abbrev pub perfect {ℓ} : {R : Type ℓ} → Program R → R × List Bytes
perfect (ends r) = (r, [])
perfect (writes p k) = let q = perfect (k (length p, none)) in (q.0, p ∷ q.1)

-- A write that returns no error has taken all bytes, as `io.Writer` says.
abbrev pub IsWriter : World → Type 0
IsWriter w = (k : ℕ) (p : Bytes) → (w.sink k p).1 ≡ none → (w.sink k p).0 ≡ length p

-- Behind a write without an error the chunk is written, and there was none before.
abbrev IsWritten : Bytes → ArchiveWriter → (ℕ × Option Failure) × ArchiveWriter → Type 0
IsWritten p a q = (a.err ≡ none) × (q.0 ≡ (length p, none)) × (q.1.written ≡ a.written ++ p ∷ [])

write_through-IsWritten :
    (w : World) (p : Bytes) (a : ArchiveWriter) (r : Option Failure)
    → IsWriter w
    → r ≡ a.err
    → (write_through w p a r).1.err ≡ none
    → IsWritten p a (write_through w p a r)
write_through-IsWritten w p a (some e) honest q h = absurd (ground (arith, q, h))
write_through-IsWritten w p a none honest q h =
    let n : (w.sink a.calls p).1 ≡ none = ap (λ o. first o (w.sink a.calls p).1) q ∙ h in
    (sym q, (λ i. (honest a.calls p n i, n i)), refl)

write-IsWritten :
    (w : World) (p : Bytes) (a : ArchiveWriter)
    → IsWriter w
    → (write w p a).1.err ≡ none
    → IsWritten p a (write w p a)
unfolding write
write-IsWritten w p a honest h =
    let b = fail (w.ctx_err a.calls) a in
    let (n, r, s) = write_through-IsWritten w p b b.err honest refl h in
    (first-none a.err (w.ctx_err a.calls) n, r, s)
  where
    first-none : (x y : Option Failure) → first x y ≡ none → x ≡ none
    first-none none y q = refl
    first-none (some f) y q = q

-- Without an error at its end, a program has run as over a w that takes everything.
abbrev pub IsPerfect {ℓ} : {R : Type ℓ} → Program R → ArchiveWriter → R × ArchiveWriter → Type ℓ
IsPerfect pr a q =
    (a.err ≡ none) × (q.0 ≡ (perfect pr).0) × (q.1.written ≡ a.written ++ (perfect pr).1)

pub run-IsPerfect {ℓ} :
    {R : Type ℓ} (w : World) (pr : Program R) (a : ArchiveWriter)
    → IsWriter w
    → (run w pr a).1.err ≡ none
    → IsPerfect pr a (run w pr a)
unfolding run
run-IsPerfect w (ends r) a honest h = (h, refl, sym (append-nil a.written))
run-IsPerfect w (writes p k) a honest h =
    let q = write w p a in
    let (n, r, s) = run-IsPerfect w (k q.0) q.1 honest h in
    let (n', r', s') = write-IsWritten w p a honest n in
    (
      n',
      r ∙ ap (λ x. (perfect (k x)).0) r',
      s
          ∙ ap (λ x. x ++ (perfect (k q.0)).1) s'
          ∙ append_assoc a.written (p ∷ []) (perfect (k q.0)).1
          ∙ ap (λ x. a.written ++ p ∷ (perfect (k x)).1) r',
    )
