-- ===== src/Stats/Floats/Toy.antt =====
-- A small number type that satisfies the laws of `Floats`: whole numbers, those below 1000 exact in
-- 32 bits, and a NaN.
use casa_os_common.Common.{
  ℕ, suc, ◌+◌, ◌/◌, min, max, ◌%◌, ◌<◌, ◌≡◌, ◌^◌, refl, arith, Bool, true, false, Option, none,
  some, ltb, leb, ap, inl, inr, ◌⊎◌, if◌then◌else◌,
}
use casa_os_common.Stats.Floats.{Floats}

abbrev pub Toy : Type 0
Toy = Option ℕ

abbrev pub is_nan : Toy → Bool
is_nan none = true
is_nan (some n) = false

abbrev pub lt : Toy → Toy → Bool
lt (some a) (some b) = ltb a b
lt _ _ = false

abbrev pub le : Toy → Toy → Bool
le (some a) (some b) = leb a b
le _ _ = false

abbrev pub add : Toy → Toy → Toy
add (some a) (some b) = some (a + b)
add _ _ = none

abbrev pub div : Toy → ℕ → Toy
div (some a) (suc n) = some (a / suc n)
div _ _ = none

abbrev pub fmin : Toy → Toy → Toy
fmin (some a) (some b) = some (min a b)
fmin _ _ = none

abbrev pub fmax : Toy → Toy → Toy
fmax (some a) (some b) = some (max a b)
fmax _ _ = none

abbrev pub fits32 : Toy → Bool
fits32 none = false
fits32 (some n) = ltb n 1000

pub is_nan_of_fits32 : (v : Toy) → fits32 v ≡ true → is_nan v ≡ false
is_nan_of_fits32 none h = ground arith
is_nan_of_fits32 (some n) h = refl

pub le_refl : (v : Toy) → is_nan v ≡ false → le v v ≡ true
le_refl none h = ground arith
le_refl (some n) h = ground arith

pub le_trans : (a b c : Toy) → le a b ≡ true → le b c ≡ true → le a c ≡ true
le_trans (some a) (some b) (some c) p q = ground arith
le_trans none b c p q = ground arith
le_trans (some a) none c p q = ground arith
le_trans (some a) (some b) none p q = ground arith

pub fmin-is_nan : (a b : Toy) → is_nan a ≡ false → is_nan b ≡ false → is_nan (fmin a b) ≡ false
fmin-is_nan a b p q = ground arith

pub fmax-is_nan : (a b : Toy) → is_nan a ≡ false → is_nan b ≡ false → is_nan (fmax a b) ≡ false
fmax-is_nan a b p q = ground arith

pub fmin-le :
    (a b : Toy)
    → is_nan a ≡ false
    → is_nan b ≡ false
    → (le (fmin a b) a ≡ true) × (le (fmin a b) b ≡ true)
fmin-le a b p q = ground arith

pub le-fmax :
    (a b : Toy)
    → is_nan a ≡ false
    → is_nan b ≡ false
    → (le a (fmax a b) ≡ true) × (le b (fmax a b) ≡ true)
le-fmax a b p q = ground arith

min-either : (a b : ℕ) → (min a b ≡ a) ⊎ (min a b ≡ b)
min-either a b = ground arith

max-either : (a b : ℕ) → (max a b ≡ a) ⊎ (max a b ≡ b)
max-either a b = ground arith

pub fmin-either :
    (a b : Toy) → is_nan a ≡ false → is_nan b ≡ false → (fmin a b ≡ a) ⊎ (fmin a b ≡ b)
fmin-either none b p q = inl refl
fmin-either (some a) none p q = inr refl
fmin-either (some a) (some b) p q = elim (min-either a b) [
  | inl e ↦ inl (ap some e)
  | inr e ↦ inr (ap some e)
]

pub fmax-either :
    (a b : Toy) → is_nan a ≡ false → is_nan b ≡ false → (fmax a b ≡ a) ⊎ (fmax a b ≡ b)
fmax-either none b p q = inl refl
fmax-either (some a) none p q = inr refl
fmax-either (some a) (some b) p q = elim (max-either a b) [
  | inl e ↦ inl (ap some e)
  | inr e ↦ inr (ap some e)
]

abbrev pub bits32 : Toy → ℕ
bits32 none = 2143289344
bits32 (some n) = n % 1000

abbrev pub from32 : ℕ → Toy
from32 w = if ltb w 1000 then some w else none

pub bits32-lt : (v : Toy) → bits32 v < 2 ^ 32
bits32-lt none = omega arith
bits32-lt (some n) = omega arith

pub from32-bits32_nan : (v : Toy) → is_nan (from32 (bits32 v)) ≡ is_nan v
from32-bits32_nan none = refl
from32-bits32_nan (some n) = ground arith

abbrev pub toy : Floats Toy
toy = record {
  nan = none;
  of_ℕ = λ n. some n;
  is_nan = is_nan;
  lt = lt;
  le = le;
  add = add;
  div = div;
  fmin = fmin;
  fmax = fmax;
  fits32 = fits32;
  bits32 = bits32;
  from32 = from32;
  bits32-lt = bits32-lt;
  nan-is_nan = refl;
  from32-bits32_nan = from32-bits32_nan;
  is_nan_of_fits32 = is_nan_of_fits32;
  le_refl = le_refl;
  le_trans = le_trans;
  fmin-is_nan = fmin-is_nan;
  fmax-is_nan = fmax-is_nan;
  fmin-le = fmin-le;
  le-fmax = le-fmax;
  fmin-either = fmin-either;
  fmax-either = fmax-either;
}
