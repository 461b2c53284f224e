-- ===== src/Utils/File/Sized.antt =====
-- `openSame` and `sizedFile` of utils/file/file.go. What the calls of the opened file give is a
-- parameter.
use casa_os_common.Common.{
  ◌≢◌, ◌<◌, ℕ, ◌+◌, ◌≤◌, ◌≡◌, ◌⊎◌, refl, sym, ap, ◌∙◌, arith, Bool, true, false, not, ◌&&◌, ◌||◌,
  Option, none, some, List, [], ◌∷◌, inl, inr, Bool-cases, if◌then◌else◌, Bytes,
}
use mathlib.Core.Path.{subst}
use casa_os_common.Common.Int.{ℤ, pos, ltb_ℤ, ◌-ℤ◌, -ℤ_parts}
use casa_os_common.Utils.File.Archive.{Failure, eof, unexpected_eof, changed}

-- What `openSame` finds: the error of OpenFile; the error of Stat, or whether the file is regular
-- and the one that the walk saw.
pub record Found : Type 0 where
  pub open_err : Option Failure
  pub stat : Failure ⊎ (Bool × Bool)

-- `openSame`: an error, or the `left` of the new sizedFile
unfoldable pub open_same : Bytes → ℤ → Found → Failure ⊎ ℤ
open_same name size f = by_open f.open_err f.stat
  where
    by_open : Option Failure → Failure ⊎ (Bool × Bool) → Failure ⊎ ℤ
    by_open (some e) st = inl e
    by_open none (inl e) = inl e
    by_open none (inr (is_regular, is_same)) =
        if not is_regular || not is_same then inl (changed name) else inr size

abbrev pub is_eof : Option Failure → Bool
is_eof (some eof) = true
is_eof _ = false

-- `Read`, by what the file's own Read gives
unfoldable pub read_sized : ℕ × Option Failure → ℤ → (ℕ × Option Failure) × ℤ
read_sized (n, e) left =
    let left' = left -ℤ pos n in
    ((n, if is_eof e && ltb_ℤ (pos 0) left' then some unexpected_eof else e), left')

-- A reader that reads to the first error: the bytes it has got and the error, none where the file has
-- given none so far.
unfoldable pub drain_file : List (ℕ × Option Failure) → ℕ × Option Failure
drain_file [] = (0, none)
drain_file ((n, some e) ∷ rs) = (n, some e)
drain_file ((n, none) ∷ rs) = let q = drain_file rs in (n + q.0, q.1)

-- The same through a sizedFile.
abbrev and_rest : (ℕ × Option Failure) × ℤ → (ℤ → ℕ × Option Failure) → ℕ × Option Failure
and_rest ((n, some e), left) rest = (n, some e)
and_rest ((n, none), left) rest = let q = rest left in (n + q.0, q.1)

unfoldable pub drain_sized : List (ℕ × Option Failure) → ℤ → ℕ × Option Failure
drain_sized [] left = (0, none)
drain_sized (r ∷ rs) left = and_rest (read_sized r left) (drain_sized rs)

-- What a reader gets through a sizedFile, where it would have got `n` bytes and the error `e`: the
-- same, unless the file ends before `left` bytes.
abbrev sized_end : ℕ → Option Failure → ℤ → Option Failure
sized_end n e left = if is_eof e && ltb_ℤ (pos n) left then some unexpected_eof else e

ltb_shift : (n m : ℕ) (left : ℤ) → ltb_ℤ (pos m) (left -ℤ pos n) ≡ ltb_ℤ (pos (n + m)) left
ltb_shift n m left = ground (arith, -ℤ_parts left (pos n))

-- A read with an error is the last.
and_rest_last :
    (c : Bool) (n : ℕ) (e : Failure) (left : ℤ) (rest : ℤ → ℕ × Option Failure)
    → and_rest ((n, if c then some unexpected_eof else some e), left) rest
      ≡ (n, if c then some unexpected_eof else some e)
and_rest_last true n e left rest = refl
and_rest_last false n e left rest = refl

ltb_shift_last : (n : ℕ) (left : ℤ) → ltb_ℤ (pos 0) (left -ℤ pos n) ≡ ltb_ℤ (pos n) left
ltb_shift_last n left = ground (arith, -ℤ_parts left (pos n))

sized_end_shift :
    (n m : ℕ) (e : Option Failure) (left : ℤ)
    → sized_end m e (left -ℤ pos n) ≡ sized_end (n + m) e left
sized_end_shift n m e left =
    ap (λ b. if is_eof e && b then some unexpected_eof else e) (ltb_shift n m left)

drain_sized-sized_end :
    (rs : List (ℕ × Option Failure)) (left : ℤ)
    → drain_sized rs left ≡ ((drain_file rs).0, sized_end (drain_file rs).0 (drain_file rs).1 left)
unfolding drain_sized drain_file read_sized
drain_sized-sized_end [] left = refl
drain_sized-sized_end ((n, none) ∷ rs) left =
    let ih = drain_sized-sized_end rs (left -ℤ pos n) in
    ap (λ q. (n + q.0, q.1)) ih
    ∙ ap (λ e. (n + (drain_file rs).0, e))
        (sized_end_shift n (drain_file rs).0 (drain_file rs).1 left)
drain_sized-sized_end ((n, some e) ∷ rs) left =
    and_rest_last (is_eof (some e) && ltb_ℤ (pos 0) (left -ℤ pos n)) n e (left -ℤ pos n)
      (drain_sized rs)
    ∙ ap (λ b. (n, if is_eof (some e) && b then some unexpected_eof else some e))
        (ltb_shift_last n left)

-- What a reader of the opened file comes to: with `n` bytes in all and the error `e`, if any, of the
-- file itself, and `m` and `d` through openSame.
abbrev pub IsGuarded : ℕ → ℕ × Option Failure → ℕ × Option Failure → Type 0
IsGuarded size (n, e) (m, d) =
    (m ≡ n)
    × (((e ≡ some eof) × (n < size) × (d ≡ some unexpected_eof))
        ⊎ (((e ≢ some eof) ⊎ (size ≤ n)) × (d ≡ e)))

is_eof-eof : (e : Option Failure) → is_eof e ≡ true → e ≡ some eof
is_eof-eof (some eof) h = refl
is_eof-eof _ h = absurd (ground arith)

sized_end_of_eof :
    (n size : ℕ) (b : Bool)
    → ltb_ℤ (pos n) (pos size) ≡ b
    → IsGuarded size (n, some eof) (n, if b then some unexpected_eof else some eof)
sized_end_of_eof n size true h = (refl, inl (refl, ground (arith, h), refl))
sized_end_of_eof n size false h = (refl, inr (inr (ground (arith, h)), refl))

sized_end-IsGuarded :
    (n size : ℕ) (e : Option Failure) → IsGuarded size (n, e) (n, sized_end n e (pos size))
sized_end-IsGuarded n size e = elim (Bool-cases (is_eof e)) [
  | inl b ↦
      subst (λ x. IsGuarded size (n, x) (n, sized_end n x (pos size))) (sym (is_eof-eof e b))
        (sized_end_of_eof n size _ refl)
  | inr b ↦
      (let ne : e ≡ some eof → ⊥ = λ q. ground (arith, q, b) in
        subst
          (λ x.
            IsGuarded size (n, e)
              (n, if x && ltb_ℤ (pos n) (pos size) then some unexpected_eof else e))
          (sym b) (refl, inr (inl ne, refl)))
]

open_same_ok :
    (name : Bytes) (size left : ℤ) (o : Option Failure) (st : Failure ⊎ (Bool × Bool))
    → open_same name size (record { open_err = o; stat = st }) ≡ inr left
    → (st ≡ inr (true, true)) × (left ≡ size)
unfolding open_same
open_same_ok name size left (some e) st h = absurd (ground arith)
open_same_ok name size left none (inl e) h = absurd (ground arith)
open_same_ok name size left none (inr (true, true)) h = (refl, ground arith)
open_same_ok name size left none (inr (true, false)) h = absurd (ground arith)
open_same_ok name size left none (inr (false, b)) h = absurd (ground arith)

-- A file that openSame opens is regular and the one that the walk saw, with a size in bytes. Whoever
-- reads it to the first error gets the bytes of the file, and the error of the file, but for io.EOF
-- before as many bytes as its size: then it is io.ErrUnexpectedEOF.
pub open_same-IsGuarded :
    (name : Bytes) (size : ℕ) (left : ℤ) (f : Found) (rs : List (ℕ × Option Failure))
    → open_same name (pos size) f ≡ inr left
    → (f.stat ≡ inr (true, true)) × IsGuarded size (drain_file rs) (drain_sized rs left)
open_same-IsGuarded name size left f rs h =
    let (seen, same) = open_same_ok name (pos size) left f.open_err f.stat h in
    (
      seen,
      subst (λ l. IsGuarded size (drain_file rs) (drain_sized rs l)) (sym same)
          (subst (λ q. IsGuarded size (drain_file rs) q) (sym (drain_sized-sized_end rs (pos size)))
            (sized_end-IsGuarded (drain_file rs).0 size (drain_file rs).1)),
    )
