-- ===== src/Utils/Jwt.antt =====
-- The tokens of utils/jwt: jwt.go and authorization.go. The package golang-jwt is an interface of what it
-- documents; a token is of any type.
pub mod Issuers
pub mod Keys
pub mod Base64
mod Tests
use casa_os_common.Common.{
  ℕ, ◌*◌, ◌+◌, ◌≡◌, Bool, true, false, not, ◌&&◌, ◌||◌, Option, none, some, List, [], ◌∷◌, ◌==◌,
  leb, if◌then◌else◌, Bytes, eq_bytes, codes,
}
use casa_os_common.Common.Int.{ℤ, pos, ◌+ℤ◌, ◌*ℤ◌, leb_ℤ, ltb_ℤ}
use casa_os_common.Stats.Store.Clock.{Time, second, unix}
use casa_os_common.Utils.Version.{trim_space}

-- `Claims`, with the registered claims that are used; the dates are in Unix seconds
pub record Claims : Type 0 where
  pub username : Bytes
  pub id : ℤ
  pub expires_at : ℤ
  pub issued_at : ℤ
  pub not_before : ℤ
  pub issuer : Bytes

-- What golang-jwt documents of `RegisteredClaims.Valid`: not before its dates, and before its end.
abbrev pub is_current : Claims → Time → Bool
is_current c now =
    leb_ℤ (c.not_before *ℤ pos second) now
    && leb_ℤ (c.issued_at *ℤ pos second) now
    && ltb_ℤ now (c.expires_at *ℤ pos second)

-- Tokens of type `T`, private keys `K` and public keys `P`. `sign` is `SignedString` with ES256;
-- `parse_with_claims` is `ParseWithClaims` with a function that gives this public key to tokens of an ECDSA
-- method: it gives the claims of a token that is signed with the key and current.
pub record Tokens (T K P : Type 0) : Type 0 where
  pub public_key : K → P
  pub sign : Claims → K → T
  pub parse_with_claims : T → P → Time → Option Claims
  pub parse_with_claims-sign :
      (c : Claims) (k : K) (now : Time)
      → parse_with_claims (sign c k) (public_key k) now
        ≡ (if is_current c now then some c else none)

abbrev pub access_issuer : Bytes
access_issuer = codes "casaos"

abbrev pub hour : ℕ
hour = 3600 * second

module _ {T K P : Type 0} (tk : Tokens T K P) where
  -- `GenerateToken` at the time `now`, for a number of nanoseconds
  unfoldable pub generate_token : Time → Bytes → K → ℤ → Bytes → ℕ → T
  generate_token now username key id issuer t =
      tk.sign
        (record {
          username = username;
          id = id;
          expires_at = unix (now +ℤ pos t);
          issued_at = unix now;
          not_before = unix now;
          issuer = issuer;
        })
        key

  unfoldable pub get_access_token : Time → Bytes → K → ℤ → T
  unfolding generate_token
  get_access_token now username key id = generate_token now username key id access_issuer (3 * hour)

  unfoldable pub get_refresh_token : Time → Bytes → K → ℤ → T
  unfolding generate_token
  get_refresh_token now username key id =
      generate_token now username key id (codes "refresh") (7 * 24 * hour)

  -- `ParseToken`; the public key is `none` where it cannot be had, and the result on an error
  unfoldable pub parse_token : Time → T → Option P → Option Claims
  parse_token now token key = elim key [ none ↦ none | some k ↦ tk.parse_with_claims token k now ]

  -- `Validate`
  unfoldable pub validate : Time → T → Option P → Bool × Option Claims
  unfolding parse_token
  validate now token key = elim (parse_token now token key) [
    | none ↦ (false, none)
    | some c ↦ (if not (eq_bytes c.issuer access_issuer) then (false, none) else (true, some c))
  ]

-- `strings.Cut(value, " ")`: what is before the first space, and what is behind it, if there is one
unfoldable pub cut_space : Bytes → Bytes × Option Bytes
cut_space [] = ([], none)
cut_space (c ∷ s) = let rest = cut_space s in if c == 32 then ([], some s) else (c ∷ rest.0, rest.1)

-- An ASCII letter in lower case.
abbrev pub to_lower : ℕ → ℕ
to_lower c = if leb b'A' c && leb c b'Z' then c + 32 else c

-- `strings.EqualFold`, on ASCII
unfoldable pub equal_fold : Bytes → Bytes → Bool
equal_fold [] [] = true
equal_fold (c ∷ s) (d ∷ t) = to_lower c == to_lower d && equal_fold s t
equal_fold _ _ = false

-- `TokenFromAuthorization`
unfoldable pub token_from_authorization : Bytes → Bytes
unfolding cut_space equal_fold
token_from_authorization authorization =
    let value = trim_space authorization in
    let (scheme, rest) = cut_space value in
    elim rest [
      | none ↦ value
      | some r ↦ if equal_fold scheme (codes "Bearer") then trim_space r else value
    ]
