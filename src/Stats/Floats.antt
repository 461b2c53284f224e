-- ===== src/Stats/Floats.antt =====
-- Go's float64 and its conversions to float32, as a parameter of the development.
pub mod Toy
use casa_os_common.Common.{ℕ, ◌<◌, ◌⊎◌, ◌≡◌, ◌^◌, Bool, true, false}

-- `of_ℕ` gives the constants; `lt` and `le` are `<` and `<=`; `add` is `+`, `div v n` is
-- `v / float64(n)`, `fmin` and `fmax` are the builtin `min` and `max`. `fits32 v` tells that v is no NaN
-- and `math.Abs(v) <= math.MaxFloat32`. `bits32 v` is `math.Float32bits(float32(v))` and `from32 w` is
-- `float64(math.Float32frombits(w))`.
-- The laws are those of IEEE 754: a conversion keeps a NaN a NaN, and makes none; the minimum and the
-- maximum of two numbers are one of them and bound both, and numbers are compared transitively.
pub record Floats (F : Type 0) : Type 0 where
  pub nan : F
  pub of_ℕ : ℕ → F
  pub is_nan : F → Bool
  pub lt : F → F → Bool
  pub le : F → F → Bool
  pub add : F → F → F
  pub div : F → ℕ → F
  pub fmin : F → F → F
  pub fmax : F → F → F
  pub fits32 : F → Bool
  pub bits32 : F → ℕ
  pub from32 : ℕ → F
  pub bits32-lt : (v : F) → bits32 v < 2 ^ 32
  pub nan-is_nan : is_nan nan ≡ true
  pub from32-bits32_nan : (v : F) → is_nan (from32 (bits32 v)) ≡ is_nan v
  pub is_nan_of_fits32 : (v : F) → fits32 v ≡ true → is_nan v ≡ false
  pub le_refl : (v : F) → is_nan v ≡ false → le v v ≡ true
  pub le_trans : (a b c : F) → le a b ≡ true → le b c ≡ true → le a c ≡ true
  pub fmin-is_nan : (a b : F) → is_nan a ≡ false → is_nan b ≡ false → is_nan (fmin a b) ≡ false
  pub fmax-is_nan : (a b : F) → is_nan a ≡ false → is_nan b ≡ false → is_nan (fmax a b) ≡ false
  pub fmin-le :
      (a b : F)
      → is_nan a ≡ false
      → is_nan b ≡ false
      → (le (fmin a b) a ≡ true) × (le (fmin a b) b ≡ true)
  pub le-fmax :
      (a b : F)
      → is_nan a ≡ false
      → is_nan b ≡ false
      → (le a (fmax a b) ≡ true) × (le b (fmax a b) ≡ true)
  pub fmin-either :
      (a b : F) → is_nan a ≡ false → is_nan b ≡ false → (fmin a b ≡ a) ⊎ (fmin a b ≡ b)
  pub fmax-either :
      (a b : F) → is_nan a ≡ false → is_nan b ≡ false → (fmax a b ≡ a) ⊎ (fmax a b ≡ b)
