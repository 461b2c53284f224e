-- ===== src/Utils/Jwt/Issuers.antt =====
-- Which tokens `Validate` of utils/jwt/jwt.go accepts.
use casa_os_common.Common.{
  ℕ, ◌*◌, ◌≡◌, ◌∙◌, refl, arith, Bool, true, false, ◌&&◌, none, some, Bytes, eq_bytes, codes,
  if◌then◌else◌, inl, inr, Bool-cases,
}
use casa_os_common.Common.Int.{ℤ, pos, ◌+ℤ◌}
use casa_os_common.Stats.Store.Clock.{Time, unix}
use casa_os_common.Utils.Jwt.{
  Claims, is_current, Tokens, access_issuer, hour, generate_token, get_access_token,
  get_refresh_token, parse_token, validate,
}

if_and_true :
    {A : Type 0} (b : Bool) (x y : A) → (if b && true then x else y) ≡ (if b then x else y)
if_and_true true x y = refl
if_and_true false x y = refl

if_and_false : {A : Type 0} (b : Bool) (x y : A) → (if b && false then x else y) ≡ y
if_and_false true x y = refl
if_and_false false x y = refl

module _ {T K P : Type 0} (tk : Tokens T K P) where
  -- The claims that a token of GenerateToken has.
  abbrev pub claims_of : Time → Bytes → ℤ → Bytes → ℤ → Claims
  claims_of now username id issuer end = record {
    username = username;
    id = id;
    expires_at = end;
    issued_at = unix now;
    not_before = unix now;
    issuer = issuer;
  }

  validate-generate_token :
      (now later : Time) (username : Bytes) (key : K) (id : ℤ) (issuer : Bytes) (t : ℕ)
      → validate tk later
          (generate_token tk now username key id issuer t)
          (some (tk.public_key key))
        ≡ (if is_current (claims_of now username id issuer (unix (now +ℤ pos t))) later
              && eq_bytes issuer access_issuer
            then (true, some (claims_of now username id issuer (unix (now +ℤ pos t))))
            else (false, none))
  unfolding validate parse_token generate_token
  validate-generate_token now later username key id issuer t =
      let c = claims_of now username id issuer (unix (now +ℤ pos t)) in
      let p = tk.parse_with_claims-sign c key later in
      elim (Bool-cases (is_current c later)) [
        | inl h ↦
            (let q : tk.parse_with_claims (tk.sign c key) (tk.public_key key) later ≡ some c =
                ground (arith, p, h) in
              ground (arith, h, q))
        | inr h ↦
            (let q : tk.parse_with_claims (tk.sign c key) (tk.public_key key) later ≡ none =
                ground (arith, p, h) in
              ground (arith, h, q))
      ]

  -- With the public key of the key that signed it, Validate accepts an access token with its claims while
  -- these are current, and no refresh token at any time.
  pub validate-get_token :
      (now later : Time) (username : Bytes) (key : K) (id : ℤ)
      → (validate tk later (get_access_token tk now username key id) (some (tk.public_key key)) ≡ (
          if is_current
            (claims_of now username id access_issuer (unix (now +ℤ pos (3 * hour))))
            later
          then (true, some (claims_of now username id access_issuer (unix (now +ℤ pos (3 * hour)))))
          else (false, none)))
        × (validate tk later (get_refresh_token tk now username key id) (some (tk.public_key key))
            ≡ (false, none))
  unfolding get_access_token get_refresh_token eq_bytes
  validate-get_token now later username key id =
      let a = validate-generate_token now later username key id access_issuer (3 * hour) in
      let r = validate-generate_token now later username key id (codes "refresh") (7 * 24 * hour) in
      let c = claims_of now username id access_issuer (unix (now +ℤ pos (3 * hour))) in
      let d = claims_of now username id (codes "refresh") (unix (now +ℤ pos (7 * 24 * hour))) in
      (
        a ∙ if_and_true (is_current c later) (true, some c) (false, none),
        r ∙ if_and_false (is_current d later) (true, some d) (false, none),
      )
