-- ===== src/Utils/Version.antt =====
-- Package utils/version: `ParseVersion` and `Compare` of utils.go. Strings are ASCII, so that TrimSpace
-- removes the six ASCII spaces.
pub mod Legacy
pub mod Migration
pub mod Text
pub mod Order
pub mod Words
mod Tests
use casa_os_common.Common.{
  ℕ, zero, suc, ◌+◌, ◌-◌, ◌*◌, ◌^◌, Bool, true, false, ◌&&◌, ◌||◌, Option, none, some, List, [],
  ◌∷◌, ◌==◌, ltb, leb, if◌then◌else◌, Bytes, lt_bytes, eq_bytes,
}
use casa_os_common.Common.Int.{ℤ, pos, negsuc, neg_ℕ, ltb_ℤ}

-- What `strings.TrimSpace` removes.
abbrev pub is_space : ℕ → Bool
is_space c = leb 9 c && leb c 13 || c == 32

unfoldable pub drop_spaces : Bytes → Bytes
drop_spaces [] = []
drop_spaces (c ∷ s) = let rest = drop_spaces s in if is_space c then rest else c ∷ s

-- A character before what is left of the end.
abbrev pub add_front : ℕ → Bytes → Bytes
add_front c [] = if is_space c then [] else c ∷ []
add_front c (d ∷ t) = c ∷ d ∷ t

unfoldable pub drop_end_spaces : Bytes → Bytes
drop_end_spaces [] = []
drop_end_spaces (c ∷ s) = add_front c (drop_end_spaces s)

-- `strings.TrimSpace`
abbrev pub trim_space : Bytes → Bytes
trim_space s = drop_end_spaces (drop_spaces s)

-- `strings.TrimLeft(s, "v")`
unfoldable pub trim_v : Bytes → Bytes
trim_v [] = []
trim_v (c ∷ s) = let rest = trim_v s in if c == b'v' then rest else c ∷ s

-- `strings.SplitN(s, "-", 2)`: what is before the first dash, and what is behind it, or nothing
unfoldable pub split_dash : Bytes → Bytes × Bytes
split_dash [] = ([], [])
split_dash (c ∷ s) = let rest = split_dash s in if c == b'-' then ([], s) else (c ∷ rest.0, rest.1)

-- `strings.Split(s, sep)` for one byte: a first part and the others
unfoldable pub split : ℕ → Bytes → Bytes × List Bytes
split sep [] = ([], [])
split sep (c ∷ s) =
    let (first, others) = split sep s in
    if c == sep then ([], first ∷ others) else (c ∷ first, others)

-- The value of decimal digits, behind those seen.
unfoldable pub digits : ℕ → Bytes → Option ℕ
digits n [] = some n
digits n (c ∷ s) =
    let rest = digits (n * 10 + (c - b'0')) s in if leb b'0' c && leb c b'9' then rest else none

-- `strconv.Atoi` behind the sign; int has 64 bits
unfoldable pub magnitude : ℕ → Bytes → Option ℕ
unfolding digits
magnitude bound [] = none
magnitude bound (c ∷ s) = elim (digits 0 (c ∷ s)) [
  | none ↦ none
  | some n ↦ if leb n bound then some n else none
]

-- `strconv.Atoi`
unfoldable pub atoi : Bytes → Option ℤ
unfolding magnitude
atoi [] = none
atoi (c ∷ s) =
    if c == b'-'
    then elim (magnitude (2 ^ 63) s) [ none ↦ none | some n ↦ some (neg_ℕ n) ]
    else elim (magnitude (2 ^ 63 - 1) (if c == b'+' then s else c ∷ s)) [
      | none ↦ none
      | some n ↦ some (pos n)
    ]

-- The results of `ParseVersion` without an error.
pub record Version : Type 0 where
  pub major : ℤ
  pub minor : ℤ
  pub patch : ℤ
  pub build : ℤ
  pub annotation : Bytes

-- The loop over the numbers, of which there are `n` at most; a number that is missing is 0.
unfoldable pub numbers : ℕ → List Bytes → Option (List ℤ)
unfolding atoi
numbers zero ss = some []
numbers (suc n) [] = some []
numbers (suc n) (s ∷ ss) = elim (atoi s) [
  | none ↦ none
  | some v ↦ elim (numbers n ss) [ none ↦ none | some vs ↦ some (v ∷ vs) ]
]

-- `va[i]`
abbrev pub number_at : List ℤ → ℕ → ℤ
number_at [] i = pos 0
number_at (v ∷ vs) zero = v
number_at (v ∷ vs) (suc i) = number_at vs i

-- `ParseVersion`; `none` is an error
unfoldable pub parse_version : Bytes → Option Version
unfolding trim_v split_dash split numbers drop_spaces drop_end_spaces
parse_version version =
    let (ver, annotation) = split_dash (trim_v (trim_space version)) in
    let (first, others) = split b'.' ver in
    elim (numbers 4 (first ∷ others)) [
      | none ↦ none
      | some va ↦ some (record {
        major = number_at va 0;
        minor = number_at va 1;
        patch = number_at va 2;
        build = number_at va 3;
        annotation = annotation;
      })
    ]

-- One comparison of two numbers of `Compare`, which goes on where they are the same.
abbrev pub compare_ℤ : ℤ → ℤ → ℤ → ℤ
compare_ℤ a b next = if ltb_ℤ b a then pos 1 else if ltb_ℤ a b then negsuc 0 else next

-- The last one, of two strings.
abbrev pub compare_bytes : Bytes → Bytes → ℤ
compare_bytes a b = if lt_bytes b a then pos 1 else if lt_bytes a b then negsuc 0 else pos 0

unfoldable pub compare_versions : Version → Version → ℤ
compare_versions a b = compare_ℤ a.major b.major (
    compare_ℤ a.minor b.minor (
      compare_ℤ a.patch b.patch
        (compare_ℤ a.build b.build (compare_bytes a.annotation b.annotation))))

-- `Compare`; `none` is an error
unfoldable pub compare : Bytes → Bytes → Option ℤ
unfolding parse_version compare_versions
compare v1 v2 = elim (parse_version v1) [
  | none ↦ none
  | some a ↦ elim (parse_version v2) [ none ↦ none | some b ↦ some (compare_versions a b) ]
]
