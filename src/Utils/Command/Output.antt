-- ===== src/Utils/Command/Output.antt =====
-- The output that is kept of a script (utils/command/command.go).
use casa_os_common.Common.{
  ℕ, zero, suc, ◌+◌, ◌-◌, ◌≤◌, ◌≡◌, refl, arith, List, [], ◌∷◌, ◌++◌, length, ltb, drop, Bytes, inl,
  inr, Bool-cases, ap, sym, ◌∙◌, length-append, length-drop,
}
use casa_os_common.Utils.Command.{Tail, write_tail, write_all}

drop-append : (n : ℕ) (s p : Bytes) → n ≤ length s → drop n s ++ p ≡ drop n (s ++ p)
drop-append zero s p l = refl
drop-append (suc n) [] p l = absurd (omega arith)
drop-append (suc n) (c ∷ s) p l = drop-append n s p (omega arith)

suc_add : (n m : ℕ) → suc (n + m) ≡ suc n + m
suc_add n m = omega arith

drop_empty : (k : ℕ) → drop {A = ℕ} k [] ≡ []
drop_empty zero = refl
drop_empty (suc k) = refl

drop-drop : (m n : ℕ) (s : Bytes) → drop m (drop n s) ≡ drop (n + m) s
drop-drop m zero s = ap (λ k. drop k s) (omega arith)
drop-drop zero (suc n) [] = ground arith
drop-drop (suc m) (suc n) [] = sym (drop_empty (suc n + suc m))
drop-drop m (suc n) (c ∷ s) = drop-drop m n s ∙ ap (λ k. drop k (c ∷ s)) (suc_add n m)

-- All that was written, behind what was before.
abbrev pub joined : Bytes → List Bytes → Bytes
joined s [] = s
joined s (p ∷ ps) = joined (s ++ p) ps

-- A tail holds the last bytes, and knows whether there were more.
abbrev pub IsTail : ℕ → Bytes → Tail → Type 0
IsTail limit s t = (t.buf ≡ drop (length s - limit) s) × (t.truncated ≡ ltb limit (length s))

write_tail-IsTail :
    (limit : ℕ) (p s : Bytes) (t : Tail)
    → IsTail limit s t
    → IsTail limit (s ++ p) (write_tail limit p t)
unfolding write_tail
write_tail-IsTail limit p s t (b, r) =
    let k = length s - limit in
    let q : t.buf ++ p ≡ drop k (s ++ p) = ap (λ x. x ++ p) b ∙ drop-append k s p (omega arith) in
    let n = length-append s p in
    let l : length (t.buf ++ p) ≡ length s + length p - k =
      ap length q ∙ length-drop k (s ++ p) ∙ ap (λ x. x - k) n in
    elim (Bool-cases (ltb limit (length (t.buf ++ p)))) [
      | inl o ↦
          (let m = length (t.buf ++ p) - limit in
            let z : k + m ≡ length (s ++ p) - limit = ground (arith, o, l, n) in
            let y : drop m (t.buf ++ p) ≡ drop (length (s ++ p) - limit) (s ++ p) =
              ap (λ x. drop m x) q ∙ drop-drop m k (s ++ p) ∙ ap (λ x. drop x (s ++ p)) z in
            (ground (arith, o, y), ground (arith, o, l, n)))
      | inr o ↦
          (let z : k ≡ length (s ++ p) - limit = ground (arith, o, l, n) in
            let y : t.buf ++ p ≡ drop (length (s ++ p) - limit) (s ++ p) =
              q ∙ ap (λ x. drop x (s ++ p)) z in
            (ground (arith, o, y), ground (arith, o, l, n)))
    ]

-- After any writes, a tail holds as many of the last bytes of all output as the limit allows, and is
-- marked as truncated exactly when the output is longer than the limit, if it started so.
pub write_all-IsTail :
    (limit : ℕ) (ps : List Bytes) (s : Bytes) (t : Tail)
    → IsTail limit s t
    → IsTail limit (joined s ps) (write_all limit ps t)
unfolding write_all
write_all-IsTail limit [] s t h = h
write_all-IsTail limit (p ∷ ps) s t h =
    write_all-IsTail limit ps (s ++ p) (write_tail limit p t) (write_tail-IsTail limit p s t h)
