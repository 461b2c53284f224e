-- ===== src/Utils/Version/Order.antt =====
-- `Compare` of utils/version/utils.go orders versions.
use casa_os_common.Common.{
  zero, suc, ◌≡◌, arith, some, Bytes, ap, ◌∙◌, true, ◌⊎◌, inl, inr, ◌↔◌, lt_bytes, Bool-cases,
}
use casa_os_common.Common.Int.{ℤ, pos, negsuc, eq_of_parts, ltb_ℤ, ◌<ℤ◌}
use casa_os_common.Utils.Version.{
  Version, parse_version, compare_ℤ, compare_bytes, compare_versions, compare,
}
use casa_os_common.Utils.Version.Text.{
  lt_bytes_irrefl, lt_bytes_asym, lt_bytes_trans, lt_bytes_total,
}

-- The sign of a comparison with its sides swapped.
abbrev pub opposite : ℤ → ℤ
opposite (pos zero) = pos 0
opposite (pos (suc n)) = negsuc 0
opposite (negsuc n) = pos 1

opposite-compare_ℤ : (a b n : ℤ) → opposite (compare_ℤ a b n) ≡ compare_ℤ b a (opposite n)
opposite-compare_ℤ a b n = ground arith

opposite-compare_bytes : (s t : Bytes) → opposite (compare_bytes s t) ≡ compare_bytes t s
opposite-compare_bytes s t = ground (arith, lt_bytes_asym s t, lt_bytes_asym t s)

-- The comparison from the build, the patch and the minor number on.
abbrev from_build : Version → Version → ℤ
from_build a b = compare_ℤ a.build b.build (compare_bytes a.annotation b.annotation)

abbrev from_patch : Version → Version → ℤ
from_patch a b = compare_ℤ a.patch b.patch (from_build a b)

abbrev from_minor : Version → Version → ℤ
from_minor a b = compare_ℤ a.minor b.minor (from_patch a b)

opposite-compare_versions : (a b : Version) → opposite (compare_versions a b) ≡ compare_versions b a
unfolding compare_versions
opposite-compare_versions a b =
    opposite-compare_ℤ a.major b.major (from_minor a b)
    ∙ ap (compare_ℤ b.major a.major) (
        opposite-compare_ℤ a.minor b.minor (from_patch a b)
        ∙ ap (compare_ℤ b.minor a.minor) (
            opposite-compare_ℤ a.patch b.patch (from_build a b)
            ∙ ap (compare_ℤ b.patch a.patch) (
                opposite-compare_ℤ a.build b.build (compare_bytes a.annotation b.annotation)
                ∙ ap (compare_ℤ b.build a.build)
                    (opposite-compare_bytes a.annotation b.annotation))))

compare_ℤ_zero : (a b n : ℤ) → compare_ℤ a b n ≡ pos 0 → (a ≡ b) × (n ≡ pos 0)
compare_ℤ_zero a b n h = (eq_of_parts a b (ground arith), ground arith)

compare_bytes_zero : (s t : Bytes) → compare_bytes s t ≡ pos 0 → s ≡ t
compare_bytes_zero s t h = lt_bytes_total s t (ground arith) (ground arith)

compare_versions_zero : (a b : Version) → compare_versions a b ≡ pos 0 → a ≡ b
unfolding compare_versions
compare_versions_zero a b h =
    let (p, h1) = compare_ℤ_zero a.major b.major (from_minor a b) h in
    let (q, h2) = compare_ℤ_zero a.minor b.minor (from_patch a b) h1 in
    let (r, h3) = compare_ℤ_zero a.patch b.patch (from_build a b) h2 in
    let (t, h4) = compare_ℤ_zero a.build b.build (compare_bytes a.annotation b.annotation) h3 in
    let u = compare_bytes_zero a.annotation b.annotation h4 in ground arith

-- Two smaller steps make one.
compare_ℤ_trans :
    (a b c m n k : ℤ)
    → (m ≡ negsuc 0 → n ≡ negsuc 0 → k ≡ negsuc 0)
    → compare_ℤ a b m ≡ negsuc 0
    → compare_ℤ b c n ≡ negsuc 0
    → compare_ℤ a c k ≡ negsuc 0
compare_ℤ_trans a b c m n k f h g = ground arith

compare_bytes_trans :
    (s t u : Bytes)
    → compare_bytes s t ≡ negsuc 0
    → compare_bytes t u ≡ negsuc 0
    → compare_bytes s u ≡ negsuc 0
compare_bytes_trans s t u h g = ground (arith, lt_bytes_trans s t u, lt_bytes_asym s u)

compare_versions_trans :
    (a b c : Version)
    → compare_versions a b ≡ negsuc 0
    → compare_versions b c ≡ negsuc 0
    → compare_versions a c ≡ negsuc 0
unfolding compare_versions
compare_versions_trans a b c =
    compare_ℤ_trans a.major b.major c.major (from_minor a b) (from_minor b c) (from_minor a c) (
      compare_ℤ_trans a.minor b.minor c.minor (from_patch a b) (from_patch b c) (from_patch a c) (
        compare_ℤ_trans a.patch b.patch c.patch (from_build a b) (from_build b c) (from_build a c) (
          compare_ℤ_trans a.build b.build c.build (compare_bytes a.annotation b.annotation)
            (compare_bytes b.annotation c.annotation) (compare_bytes a.annotation c.annotation)
            (compare_bytes_trans a.annotation b.annotation c.annotation))))

-- A version compares with itself as equal.
compare_versions_self : (a : Version) → compare_versions a a ≡ pos 0
unfolding compare_versions
compare_versions_self a = ground (arith, lt_bytes_irrefl a.annotation)

-- The newer of two versions is the one with the greater of the first numbers that differ, or, where
-- none does, with the annotation that comes later.
abbrev pub Newer : Version → Version → Type 0
Newer a b =
    (b.major <ℤ a.major)
    ⊎ ((a.major ≡ b.major)
        × ((b.minor <ℤ a.minor)
            ⊎ ((a.minor ≡ b.minor)
                × ((b.patch <ℤ a.patch)
                    ⊎ ((a.patch ≡ b.patch)
                        × ((b.build <ℤ a.build)
                            ⊎ ((a.build ≡ b.build)
                                × (lt_bytes b.annotation a.annotation ≡ true))))))))

compare_ℤ_newer :
    {P : Type 0} (a b n : ℤ) → (n ≡ pos 1 → P) → compare_ℤ a b n ≡ pos 1 → (b <ℤ a) ⊎ ((a ≡ b) × P)
compare_ℤ_newer a b n f h = elim (Bool-cases (ltb_ℤ b a)) [
  | inl q ↦ inl (ground (arith, q))
  | inr q ↦ inr (eq_of_parts a b (ground (arith, q, h)), f (ground (arith, q, h)))
]

compare_ℤ_newer_back :
    {P : Type 0} (a b n : ℤ) → (P → n ≡ pos 1) → (b <ℤ a) ⊎ ((a ≡ b) × P) → compare_ℤ a b n ≡ pos 1
compare_ℤ_newer_back a b n f (inl q) = ground (arith, q)
compare_ℤ_newer_back a b n f (inr (e, p)) = let g = f p in ground (arith, e, g)

compare_bytes_newer : (s t : Bytes) → compare_bytes s t ≡ pos 1 → lt_bytes t s ≡ true
compare_bytes_newer s t h = ground arith

compare_bytes_newer_back : (s t : Bytes) → lt_bytes t s ≡ true → compare_bytes s t ≡ pos 1
compare_bytes_newer_back s t h = ground arith

compare_versions-Newer : (a b : Version) → compare_versions a b ≡ pos 1 → Newer a b
unfolding compare_versions
compare_versions-Newer a b = compare_ℤ_newer a.major b.major (from_minor a b) (
    compare_ℤ_newer a.minor b.minor (from_patch a b) (
      compare_ℤ_newer a.patch b.patch (from_build a b) (
        compare_ℤ_newer a.build b.build (compare_bytes a.annotation b.annotation)
          (compare_bytes_newer a.annotation b.annotation))))

Newer-compare_versions : (a b : Version) → Newer a b → compare_versions a b ≡ pos 1
unfolding compare_versions
Newer-compare_versions a b = compare_ℤ_newer_back a.major b.major (from_minor a b) (
    compare_ℤ_newer_back a.minor b.minor (from_patch a b) (
      compare_ℤ_newer_back a.patch b.patch (from_build a b) (
        compare_ℤ_newer_back a.build b.build (compare_bytes a.annotation b.annotation)
          (compare_bytes_newer_back a.annotation b.annotation))))

-- What Compare makes of three strings, all parsed.
abbrev pub IsOrdered : Bytes → Bytes → Bytes → Version → Version → Type 0
IsOrdered u v w a b =
    (compare u v ≡ some (pos 1) ↔ Newer a b)
    × (compare u u ≡ some (pos 0))
    × ((x : ℤ) → compare u v ≡ some x → compare v u ≡ some (opposite x))
    × (compare u v ≡ some (pos 0) → parse_version u ≡ parse_version v)
    × (compare u v ≡ some (negsuc 0)
        → compare v w ≡ some (negsuc 0)
        → compare u w ≡ some (negsuc 0))

-- On strings that ParseVersion accepts, Compare is 1 exactly when the first has the greater of the first
-- numbers that differ (major, minor, patch, build), or the same numbers and the later annotation; a version
-- equals itself, swapping the sides swaps 1 and -1, 0 means the same numbers and annotation, and smaller
-- than is transitive.
pub compare-IsOrdered :
    (u v w : Bytes) (a b c : Version)
    → parse_version u ≡ some a
    → parse_version v ≡ some b
    → parse_version w ≡ some c
    → IsOrdered u v w a b
unfolding compare
compare-IsOrdered u v w a b c p q r = (
  (
    (λ h. compare_versions-Newer a b (ground (arith, p, q, h))),
    (λ n. ground (arith, p, q, Newer-compare_versions a b n)),
  ),
  ground (arith, p, compare_versions_self a),
  (λ x h. ground (arith, p, q, h, opposite-compare_versions a b)),
  (λ h. ground (arith, p, q, h, compare_versions_zero a b)),
  (λ h g. ground (arith, p, q, r, h, g, compare_versions_trans a b c)),
)
