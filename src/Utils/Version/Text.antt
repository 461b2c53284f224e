-- ===== src/Utils/Version/Text.antt =====
-- The order of strings (utils/version/utils.go compares annotations by it).
use casa_os_common.Common.{◌≡◌, refl, arith, true, false, [], ◌∷◌, Bytes, lt_bytes}

pub lt_bytes_irrefl : (s : Bytes) → lt_bytes s s ≡ false
unfolding lt_bytes
lt_bytes_irrefl [] = refl
lt_bytes_irrefl (a ∷ s) = ground (arith, lt_bytes_irrefl s)

pub lt_bytes_asym : (s t : Bytes) → lt_bytes s t ≡ true → lt_bytes t s ≡ false
unfolding lt_bytes
lt_bytes_asym [] [] h = refl
lt_bytes_asym [] (b ∷ t) h = refl
lt_bytes_asym (a ∷ s) [] h = ground arith
lt_bytes_asym (a ∷ s) (b ∷ t) h = ground (arith, lt_bytes_asym s t)

pub lt_bytes_trans :
    (s t u : Bytes) → lt_bytes s t ≡ true → lt_bytes t u ≡ true → lt_bytes s u ≡ true
unfolding lt_bytes
lt_bytes_trans [] [] u h k = ground arith
lt_bytes_trans [] (b ∷ t) [] h k = ground arith
lt_bytes_trans [] (b ∷ t) (c ∷ u) h k = refl
lt_bytes_trans (a ∷ s) [] u h k = ground arith
lt_bytes_trans (a ∷ s) (b ∷ t) [] h k = ground arith
lt_bytes_trans (a ∷ s) (b ∷ t) (c ∷ u) h k = ground (arith, lt_bytes_trans s t u)

pub lt_bytes_total : (s t : Bytes) → lt_bytes s t ≡ false → lt_bytes t s ≡ false → s ≡ t
unfolding lt_bytes
lt_bytes_total [] [] h k = refl
lt_bytes_total [] (b ∷ t) h k = ground arith
lt_bytes_total (a ∷ s) [] h k = ground arith
lt_bytes_total (a ∷ s) (b ∷ t) h k = ground (arith, lt_bytes_total s t)
