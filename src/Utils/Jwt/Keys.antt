-- ===== src/Utils/Jwt/Keys.antt =====
-- utils/jwt/jwt_helper.go: public keys as JSON Web Keys. The JSON of keys is a parameter.
use casa_os_common.Common.{ℕ, ◌≡◌, ap, ◌∙◌, Option, none, some, List, [], ◌∷◌, Bytes, codes}
use casa_os_common.Utils.Jwt.Base64.{
  encode, decode, big_bytes, set_bytes, decode-encode, set_bytes-big_bytes, big_bytes-AllBytes,
}

-- `JWK`
pub record Jwk : Type 0 where
  pub kty : Bytes
  pub crv : Bytes
  pub x : Bytes
  pub y : Bytes

-- `ecdsa.PublicKey` on P-256: the coordinates
pub record PublicKey : Type 0 where
  pub x : ℕ
  pub y : ℕ

-- `json.Marshal` and `json.Unmarshal` on a `JWKS`, which has a list of keys
pub record Json : Type 0 where
  pub marshal : List Jwk → Option Bytes
  pub unmarshal : Bytes → Option (List Jwk)

abbrev pub jwk_of : PublicKey → Jwk
jwk_of k = record {
  kty = codes "EC";
  crv = codes "P-256";
  x = encode (big_bytes k.x);
  y = encode (big_bytes k.y);
}

-- `GenerateJwksJSON`
abbrev pub generate_jwks_json : Json → PublicKey → Option Bytes
generate_jwks_json json k = json.marshal (jwk_of k ∷ [])

-- The key of two coordinates in base64.
abbrev pub key_of_bytes : Option Bytes → Option Bytes → Option PublicKey
key_of_bytes none y = none
key_of_bytes (some x) none = none
key_of_bytes (some x) (some y) = some (record { x = set_bytes x; y = set_bytes y })

-- The first key of a set.
abbrev pub first_key : Option (List Jwk) → Option PublicKey
first_key none = none
first_key (some []) = none
first_key (some (k ∷ ks)) = key_of_bytes (decode k.x) (decode k.y)

-- `PublicKeyFromJwksJSON`
abbrev pub public_key_from_jwks_json : Json → Bytes → Option PublicKey
public_key_from_jwks_json json s = first_key (json.unmarshal s)

-- Where json.Unmarshal reads back the set of this key that json.Marshal has written, the key is read
-- back from its JSON, whatever its coordinates.
pub public_key_from_jwks_json-generate_jwks_json :
    (json : Json) (k : PublicKey) (s : Bytes)
    → (json.marshal (jwk_of k ∷ []) ≡ some s → json.unmarshal s ≡ some (jwk_of k ∷ []))
    → generate_jwks_json json k ≡ some s
    → public_key_from_jwks_json json s ≡ some k
public_key_from_jwks_json-generate_jwks_json json k s reads h =
    ap first_key (reads h)
    ∙ (λ i.
        key_of_bytes (decode-encode (big_bytes k.x) (big_bytes-AllBytes k.x) i)
          (decode-encode (big_bytes k.y) (big_bytes-AllBytes k.y) i))
    ∙ λ i. some (record { x = set_bytes-big_bytes k.x i; y = set_bytes-big_bytes k.y i })
