-- ===== src/Common/Text.antt =====
-- Go strings as lists of bytes: equality, and literals.
use Prim.Native.Char.{code}
use Prim.Native.String.{String}
use casa_os_common.Common.Tests.{◌==◌, ltb}
use Prim.Native.Nat.{ℕ, ◌<◌}
use mathlib.Core.Path.{◌≡◌, refl}
use mathlib.Core.Bool.{Bool, true, false, ◌&&◌, ◌||◌}
use mathlib.Core.Logic.{◌↔◌}
use mathlib.Core.List.{List, [], ◌∷◌}
use native.Mathlib.Omega.{arith}

abbrev pub Bytes : Type 0
Bytes = List ℕ

-- The bytes of an ASCII literal.
abbrev pub codes : String → Bytes
codes String.[] = []
codes (String.◌∷◌ c s) = code c ∷ codes s

unfoldable pub eq_bytes : Bytes → Bytes → Bool
eq_bytes [] [] = true
eq_bytes (a ∷ s) (b ∷ t) = a == b && eq_bytes s t
eq_bytes _ _ = false

eq_bytes_sound : (s t : Bytes) → eq_bytes s t ≡ true → s ≡ t
unfolding eq_bytes
eq_bytes_sound [] [] h = refl
eq_bytes_sound (a ∷ s) (b ∷ t) h = ground (arith, eq_bytes_sound s t)
eq_bytes_sound [] (b ∷ t) h = ground arith
eq_bytes_sound (a ∷ s) [] h = ground arith

pub eq_bytes_refl : (s : Bytes) → eq_bytes s s ≡ true
unfolding eq_bytes
eq_bytes_refl [] = refl
eq_bytes_refl (a ∷ s) = ground (arith, eq_bytes_refl s)

pub eq_bytes_iff : (s t : Bytes) → (eq_bytes s t ≡ true) ↔ (s ≡ t)
eq_bytes_iff s t = (eq_bytes_sound s t, λ e. ground (arith, eq_bytes_refl s))

-- Every element is a byte.
abbrev pub AllBytes : Bytes → Type 0
AllBytes [] = Unit
AllBytes (b ∷ s) = (b < 256) × AllBytes s

-- `strings.Compare(s, t) < 0`
unfoldable pub lt_bytes : Bytes → Bytes → Bool
lt_bytes [] [] = false
lt_bytes [] (b ∷ t) = true
lt_bytes (a ∷ s) [] = false
lt_bytes (a ∷ s) (b ∷ t) = ltb a b || a == b && lt_bytes s t
