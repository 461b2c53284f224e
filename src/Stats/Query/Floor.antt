-- ===== src/Stats/Query/Floor.antt =====
-- `floorTo` of pkg/stats/query.go.
use casa_os_common.Common.{
  ℕ, zero, suc, ◌+◌, ◌-◌, ◌*◌, ◌/◌, ◌%◌, ◌<◌, ◌≤◌, ◌≡◌, arith, ap, sym, ◌∙◌,
}
use mathlib.Core.Path.{subst}
use native.Mathlib.Nat.{
  mod-lt, div-add-mod', mod-eq_of_lt, mod-mod, add-mul-mod_self_right, mod_self,
}
use native.Mathlib.Decide.{ℕ_discrete}
use casa_os_common.Common.Int.{ℤ, pos, negsuc, ◌+ℤ◌, ◌-ℤ◌, ◌*ℤ◌, ◌≤ℤ◌, rem, neg_ℕ}
use casa_os_common.Stats.Query.{floor_to}

add_pos : (a b : ℕ) → pos a +ℤ pos b ≡ pos (a + b)
unfolding ◌+ℤ◌
add_pos a b = ground arith

add_neg : (a b : ℕ) → a ≤ b → neg_ℕ a +ℤ pos b ≡ pos (b - a)
unfolding ◌+ℤ◌
add_neg zero b h = ground arith
add_neg (suc a) b h = ground arith

add-mod_self : (a m : ℕ) → (a + m) % m ≡ a % m
add-mod_self a m = ap (λ k. (a + k) % m) (omega arith) ∙ add-mul-mod_self_right a 1 m

offset_pos : (n m : ℕ) → rem (rem (pos n) m +ℤ pos m) m ≡ pos (n % m)
offset_pos n m =
    ap (λ x. rem x m) (add_pos (n % m) m) ∙ ap (λ k. pos k) (add-mod_self (n % m) m ∙ mod-mod n m)

offset_neg : (n m : ℕ) → 0 < m → rem (rem (negsuc n) m +ℤ pos m) m ≡ pos ((m - suc n % m) % m)
offset_neg n m h =
    let l = mod-lt (suc n) h in ap (λ x. rem x m) (add_neg (suc n % m) m (omega arith))

-- The last multiple of a step at or before a time.
abbrev pub IsFloor : ℤ → ℕ → ℤ → Type 0
IsFloor x m y = (y ≤ℤ x) × (x +ℤ pos 1 ≤ℤ y +ℤ pos m) × (q : ℤ) × (y ≡ q *ℤ pos m)

IsFloor-pos : (n m c : ℕ) → 0 < m → c * m + n % m ≡ n → IsFloor (pos n) m (pos n -ℤ pos (n % m))
unfolding ◌+ℤ◌ ◌-ℤ◌ ◌*ℤ◌
IsFloor-pos n m c h d = let l = mod-lt n h in (ground arith, ground arith, pos c, ground arith)

IsFloor-neg : (n m c k : ℕ) → k < m → c * m ≡ suc n + k → IsFloor (negsuc n) m (negsuc n -ℤ pos k)
unfolding ◌+ℤ◌ ◌-ℤ◌ ◌*ℤ◌
IsFloor-neg n m zero k l d = absurd (omega arith)
IsFloor-neg n m (suc c) k l d = (ground arith, ground arith, negsuc c, ground arith)

-- Where the step is positive, floorTo gives the last multiple of it at or before a time, which may be
-- negative.
pub floor_to-IsFloor : (x : ℤ) (m : ℕ) → 0 < m → IsFloor x m (floor_to x m)
unfolding floor_to
floor_to-IsFloor (pos n) m h =
    subst (λ r. IsFloor (pos n) m (pos n -ℤ r)) (sym (offset_pos n m))
      (IsFloor-pos n m (n / m) h (div-add-mod' n m))
floor_to-IsFloor (negsuc n) m h =
    let a = suc n % m in
    let l = mod-lt (suc n) h in
    let d = div-add-mod' (suc n) m in
    elim (ℕ_discrete a 0) [
      | yes z ↦
          (let k : (m - a) % m ≡ 0 = ap (λ x. x % m) (omega arith) ∙ mod_self m in
            subst (λ r. IsFloor (negsuc n) m (negsuc n -ℤ r))
              (sym (offset_neg n m h ∙ ap (λ x. pos x) k))
              (IsFloor-neg n m (suc n / m) 0 h (omega arith)))
      | no z ↦
          (let k : (m - a) % m ≡ m - a = mod-eq_of_lt (omega arith) in
            subst (λ r. IsFloor (negsuc n) m (negsuc n -ℤ r))
              (sym (offset_neg n m h ∙ ap (λ x. pos x) k))
              (IsFloor-neg n m (suc (suc n / m)) (m - a) (omega arith) (omega arith)))
    ]
