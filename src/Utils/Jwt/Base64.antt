-- ===== src/Utils/Jwt/Base64.antt =====
-- `base64.RawURLEncoding` and the bytes of a `big.Int`, as utils/jwt/jwt_helper.go uses them.
use casa_os_common.Common.{
  ◌-◌, ℕ, zero, suc, ◌+◌, ◌*◌, ◌/◌, ◌%◌, ◌≤◌, ◌<◌, ◌≡◌, refl, ap, ◌∙◌, arith, ◌&&◌, ◌||◌, Option,
  none, some, List, [], ◌∷◌, ◌++◌, ◌==◌, ltb, leb, if◌then◌else◌, Bytes, AllBytes, Bool-cases, inl,
  inr,
}

-- The character of six bits.
abbrev pub encode_digit : ℕ → ℕ
encode_digit n =
    if ltb n 26
    then 65 + n
    else if ltb n 52
    then 71 + n
    else if ltb n 62
    then n - 4
    else if n == 62
    then 45
    else 95

-- The six bits of a character, none where it is not of the alphabet.
abbrev pub decode_digit : ℕ → Option ℕ
decode_digit c =
    if leb 65 c && leb c 90
    then some (c - 65)
    else if leb 97 c && leb c 122
    then some (c - 71)
    else if leb 48 c && leb c 57
    then some (c + 4)
    else if c == 45
    then some 62
    else if c == 95
    then some 63
    else none

-- `EncodeToString`
unfoldable pub encode : Bytes → Bytes
encode [] = []
encode (a ∷ []) = encode_digit (a / 4) ∷ encode_digit (a % 4 * 16) ∷ []
encode (a ∷ b ∷ []) =
    encode_digit (a / 4) ∷ encode_digit (a % 4 * 16 + b / 16) ∷ encode_digit (b % 16 * 4) ∷ []
encode (a ∷ b ∷ c ∷ s) =
    encode_digit (a / 4)
    ∷ encode_digit (a % 4 * 16 + b / 16)
    ∷ encode_digit (b % 16 * 4 + c / 64)
    ∷ encode_digit (c % 64)
    ∷ encode s

abbrev add_digit : ℕ → Option ℕ → Option (List ℕ) → Option (List ℕ)
add_digit c d none = none
add_digit c (some d) (some ds) = some (d ∷ ds)
add_digit c none (some ds) = if c == 10 || c == 13 then some ds else none

-- The digits of a text; Go passes over line ends.
unfoldable pub digits_of : Bytes → Option (List ℕ)
digits_of [] = some []
digits_of (c ∷ s) = add_digit c (decode_digit c) (digits_of s)

abbrev and_bytes : Bytes → Option Bytes → Option Bytes
and_bytes s none = none
and_bytes s (some t) = some (s ++ t)

-- The bytes of digits; one digit alone is too few, and bits that are left over are not looked at.
unfoldable pub bytes_of : List ℕ → Option Bytes
bytes_of [] = some []
bytes_of (w ∷ []) = none
bytes_of (w ∷ x ∷ []) = some ((w * 4 + x / 16) ∷ [])
bytes_of (w ∷ x ∷ y ∷ []) = some ((w * 4 + x / 16) ∷ (x % 16 * 16 + y / 4) ∷ [])
bytes_of (w ∷ x ∷ y ∷ z ∷ ds) =
    and_bytes ((w * 4 + x / 16) ∷ (x % 16 * 16 + y / 4) ∷ (y % 4 * 64 + z) ∷ []) (bytes_of ds)

-- `DecodeString`
abbrev decode_digits : Option (List ℕ) → Option Bytes
decode_digits none = none
decode_digits (some ds) = bytes_of ds

abbrev pub decode : Bytes → Option Bytes
decode s = decode_digits (digits_of s)

-- `Bytes()`: without leading zeros; the rounds are at most `n`.
unfoldable pub big_bytes_from : ℕ → ℕ → Bytes → Bytes
big_bytes_from zero n s = s
big_bytes_from (suc fuel) n s =
    let rest = big_bytes_from fuel (n / 256) (n % 256 ∷ s) in if n == 0 then s else rest

abbrev pub big_bytes : ℕ → Bytes
big_bytes n = big_bytes_from n n []

-- `SetBytes`
unfoldable pub set_bytes_from : ℕ → Bytes → ℕ
set_bytes_from n [] = n
set_bytes_from n (b ∷ s) = set_bytes_from (n * 256 + b) s

abbrev pub set_bytes : Bytes → ℕ
set_bytes s = set_bytes_from 0 s

decode_digit-encode_digit : (n : ℕ) → n < 64 → decode_digit (encode_digit n) ≡ some n
decode_digit-encode_digit n h = ground arith

set_bytes_from-big_bytes_from :
    (fuel n : ℕ) (s : Bytes)
    → n ≤ fuel
    → set_bytes_from 0 (big_bytes_from fuel n s) ≡ set_bytes_from n s
unfolding big_bytes_from set_bytes_from
set_bytes_from-big_bytes_from zero n s h =
    ap (λ k. set_bytes_from k s) (let e : 0 ≡ n = omega (arith, h) in e)
set_bytes_from-big_bytes_from (suc fuel) n s h = elim (Bool-cases (n == 0)) [
  | inl b ↦ ground (arith, b)
  | inr b ↦
      (let positive : 0 < n = ground (arith, b) in
        let ih =
          set_bytes_from-big_bytes_from fuel (n / 256) (n % 256 ∷ s) (omega (arith, h, positive)) in
        let e : n / 256 * 256 + n % 256 ≡ n = omega arith in
        rw (b) (ih ∙ ap (λ k. set_bytes_from k s) e))
]

AllBytes-big_bytes_from : (fuel n : ℕ) (s : Bytes) → AllBytes s → AllBytes (big_bytes_from fuel n s)
unfolding big_bytes_from
AllBytes-big_bytes_from zero n s h = h
AllBytes-big_bytes_from (suc fuel) n s h =
    ground (arith, AllBytes-big_bytes_from fuel (n / 256) (n % 256 ∷ s))

-- The digits that a text of such bytes is written with.
sextets : Bytes → List ℕ
sextets [] = []
sextets (a ∷ []) = a / 4 ∷ a % 4 * 16 ∷ []
sextets (a ∷ b ∷ []) = a / 4 ∷ (a % 4 * 16 + b / 16) ∷ b % 16 * 4 ∷ []
sextets (a ∷ b ∷ c ∷ s) = a / 4 ∷ (a % 4 * 16 + b / 16) ∷ (b % 16 * 4 + c / 64) ∷ c % 64 ∷ sextets s

digits_of-encode_digit :
    (n : ℕ) (s : Bytes) (ds : List ℕ)
    → n < 64
    → digits_of s ≡ some ds
    → digits_of (encode_digit n ∷ s) ≡ some (n ∷ ds)
unfolding digits_of
digits_of-encode_digit n s ds h q =
    λ i. add_digit (encode_digit n) (decode_digit-encode_digit n h i) (q i)

digits_of-encode : (s : Bytes) → AllBytes s → digits_of (encode s) ≡ some (sextets s)
unfolding encode sextets digits_of
digits_of-encode [] h = refl
digits_of-encode (a ∷ []) (l, h) =
    let t = encode_digit (a % 4 * 16) ∷ [] in
    digits_of-encode_digit (a / 4) t (a % 4 * 16 ∷ []) (omega (arith, l))
      (digits_of-encode_digit (a % 4 * 16) [] [] (omega arith) refl)
digits_of-encode (a ∷ b ∷ []) (l, (l', h)) =
    let t = encode_digit (b % 16 * 4) ∷ [] in
    let m = a % 4 * 16 + b / 16 in
    digits_of-encode_digit (a / 4) (encode_digit m ∷ t) (m ∷ b % 16 * 4 ∷ []) (omega (arith, l)) (
      digits_of-encode_digit m t (b % 16 * 4 ∷ []) (omega (arith, l'))
        (digits_of-encode_digit (b % 16 * 4) [] [] (omega arith) refl))
digits_of-encode (a ∷ b ∷ c ∷ s) (l, (l', (l'', h))) =
    let m = a % 4 * 16 + b / 16 in
    let n = b % 16 * 4 + c / 64 in
    let t = encode_digit (c % 64) ∷ encode s in
    let ds = c % 64 ∷ sextets s in
    digits_of-encode_digit (a / 4) (encode_digit m ∷ encode_digit n ∷ t) (m ∷ n ∷ ds)
      (omega (arith, l))
      (digits_of-encode_digit m (encode_digit n ∷ t) (n ∷ ds) (omega (arith, l')) (
        digits_of-encode_digit n t ds (omega (arith, l'')) (
          digits_of-encode_digit (c % 64) (encode s) (sextets s) (omega arith)
            (digits_of-encode s h))))

joined_bytes :
    (a b c : ℕ)
    → b < 256
    → c < 256
    → (a / 4 * 4 + (a % 4 * 16 + b / 16) / 16 ≡ a)
      × ((a % 4 * 16 + b / 16) % 16 * 16 + (b % 16 * 4 + c / 64) / 4 ≡ b)
      × ((b % 16 * 4 + c / 64) % 4 * 64 + c % 64 ≡ c)
joined_bytes a b c h h' = (omega (arith, h), omega (arith, h, h'), omega (arith, h'))

bytes_of-sextets : (s : Bytes) → AllBytes s → bytes_of (sextets s) ≡ some s
unfolding sextets bytes_of
bytes_of-sextets [] h = refl
bytes_of-sextets (a ∷ []) h = ground arith
bytes_of-sextets (a ∷ b ∷ []) h = ground arith
bytes_of-sextets (a ∷ b ∷ c ∷ s) (l, (l', (l'', h))) =
    let (e, f, g) = joined_bytes a b c l' l'' in
    λ i. and_bytes (e i ∷ f i ∷ g i ∷ []) (bytes_of-sextets s h i)

pub decode-encode : (s : Bytes) → AllBytes s → decode (encode s) ≡ some s
decode-encode s h = ap decode_digits (digits_of-encode s h) ∙ bytes_of-sextets s h

pub set_bytes-big_bytes : (n : ℕ) → set_bytes (big_bytes n) ≡ n
unfolding set_bytes_from
set_bytes-big_bytes n = set_bytes_from-big_bytes_from n n [] (omega arith)

pub big_bytes-AllBytes : (n : ℕ) → AllBytes (big_bytes n)
big_bytes-AllBytes n = AllBytes-big_bytes_from n n [] tt
