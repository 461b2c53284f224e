-- ===== src/Utils/Jwt/Tests.antt =====
-- Runs of utils/jwt with tokens in the clear, and an instance of its theorem.
use casa_os_common.Common.{
  ℕ, ◌≡◌, ◌*◌, refl, true, false, ◌&&◌, ◌==◌, Option, none, some, codes, if◌then◌else◌, arith,
}
use casa_os_common.Common.Int.{pos, ◌+ℤ◌}
use casa_os_common.Stats.Store.Clock.{Time, second, unix}
use casa_os_common.Utils.Version.{drop_spaces, drop_end_spaces}
use casa_os_common.Utils.Jwt.{
  Claims, is_current, Tokens, access_issuer, hour, get_access_token, get_refresh_token, validate,
  token_from_authorization, cut_space, equal_fold,
}
use casa_os_common.Utils.Jwt.Issuers.{claims_of, validate-get_token}

-- A token is its claims with the number of its key.
abbrev open_claims : Claims × ℕ → ℕ → Time → Option Claims
open_claims (c, k) p now = if k == p && is_current c now then some c else none

open_claims-same :
    (c : Claims) (k : ℕ) (now : Time)
    → open_claims (c, k) k now ≡ (if is_current c now then some c else none)
open_claims-same c k now = ground arith

abbrev clear : Tokens (Claims × ℕ) ℕ ℕ
clear = record {
  public_key = λ k. k;
  sign = λ c k. (c, k);
  parse_with_claims = open_claims;
  parse_with_claims-sign = open_claims-same;
}

validate-get_token_example :
    (validate clear
        (pos (60 * second))
        (get_access_token clear (pos second) (codes "ann") 7 (pos 1))
        (some 7)
      ≡ (if is_current
            (claims_of clear
              (pos second)
              (codes "ann")
              (pos 1)
              access_issuer
              (unix (pos second +ℤ pos (3 * hour))))
            (pos (60 * second))
          then (
            true,
            some (
                claims_of clear
                  (pos second)
                  (codes "ann")
                  (pos 1)
                  access_issuer
                  (unix (pos second +ℤ pos (3 * hour)))),
          )
          else (false, none)))
    × (validate clear
          (pos (60 * second))
          (get_refresh_token clear (pos second) (codes "ann") 7 (pos 1))
          (some 7)
        ≡ (false, none))
validate-get_token_example =
    validate-get_token clear (pos second) (pos (60 * second)) (codes "ann") 7 (pos 1)

bearer_run : token_from_authorization (codes " bearer  abc") ≡ codes "abc"
unfolding token_from_authorization cut_space equal_fold drop_spaces drop_end_spaces
bearer_run = refl
