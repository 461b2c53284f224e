-- ===== src/External/UserService/Tests.antt =====
-- Runs of external/user_service.go, and instances of its theorems.
use casa_os_common.Common.{
  ℕ, ◌≡◌, refl, arith, true, false, Option, none, some, List, [], ◌∷◌, ◌⊎◌, inl, Bytes, codes,
  eq_bytes, eq_bytes_iff,
}
use casa_os_common.Common.Int.{pos, ◌-ℤ◌}
use casa_os_common.Common.Map
use casa_os_common.Stats.Store.Clock.{Time}
use casa_os_common.Utils.Version.{drop_spaces, drop_end_spaces}
use casa_os_common.Utils.Jwt.Base64.{encode, digits_of, bytes_of, big_bytes_from, set_bytes_from}
use casa_os_common.Utils.Jwt.Keys.{PublicKey, Jwk, Json, jwk_of}
use casa_os_common.External.UserService.{
  Sentinel, invalid, refused, status_code, Cache, TokenCall, missing, parse_token, KeyCall,
  KeyCache, get_public_key, fetch_public_key,
}
use casa_os_common.External.UserService.Refusals.{AllExplained, run_tokens-AllExplained}
use casa_os_common.External.UserService.Keys.{
  AllKeysAfter, run_keys, AllCurrent, run_keys-AllKeysAfter, get_public_key-generate_jwks_json,
}
use casa_os_common.Common.Map.{Map}

listed_put :
    (k : Bytes) (w : Sentinel) (now : Time) (c : Map Sentinel) (j : Bytes) (v : Sentinel)
    → Map.get j (Map.put k w c) ≡ some v
    → ((k ≡ j) × (w ≡ v)) ⊎ (Map.get j c ≡ some v)
listed_put k w now c j v h = ground (arith, h, Map.get-put k j w c, eq_bytes_iff k j)

-- A cache that drops nothing.
abbrev plain_cache : Cache (Map Sentinel)
plain_cache = record {
  get = λ k now c. (Map.get k c, c);
  put = λ k v now c. Map.put k v c;
  Holds = λ c k v. Map.get k c ≡ some v;
  get-Holds = λ k now c v h. h;
  get_after = λ k now c j v h. h;
  put_after = listed_put;
}

abbrev answered : ℕ → TokenCall
answered status = record {
  marshalled = true;
  address = missing;
  joined = false;
  made = true;
  answer = some (status, none);
  now = pos 5000000000;
}

-- A token that is refused is not asked for again, also with blanks around it.
refused_run :
    (parse_token plain_cache
      (answered 500)
      (codes " abc")
      (parse_token plain_cache (answered 401) (codes "abc") []).1).0
    ≡ inl (refused invalid)
unfolding parse_token Map.get Map.put drop_spaces drop_end_spaces eq_bytes
refused_run = refl

failing_run :
    (parse_token plain_cache (answered 500) (codes "abc") []) ≡ (inl (status_code 500), [])
unfolding parse_token Map.get drop_spaces drop_end_spaces eq_bytes
failing_run = refl

run_tokens-AllExplained_example :
    AllExplained plain_cache [] ((answered 401, codes "abc") ∷ (answered 500, codes "abc ") ∷ []) []
unfolding Map.get
run_tokens-AllExplained_example =
    run_tokens-AllExplained plain_cache
      ((answered 401, codes "abc") ∷ (answered 500, codes "abc ") ∷ []) [] (λ key v h. ground arith)

abbrev signing_key : PublicKey
signing_key = record { x = 66051; y = 255 }

-- A set is written as the x of its first key, and read with the y of the signing key.
abbrev x_of : List Jwk → Option Bytes
x_of [] = none
x_of (k ∷ ks) = some k.x

abbrev short_json : Json
short_json = record {
  marshal = x_of;
  unmarshal = λ s. some (record (jwk_of signing_key) { x = s } ∷ []);
}

abbrev key_call : Option (ℕ × Option Bytes) → KeyCall
key_call a = record {
  now = pos 20000000000;
  kept = pos 20000000001;
  address = true;
  joined = true;
  answer = a;
}

abbrev new_cache : KeyCache
new_cache = record { key = none; last_update = pos 0 }

abbrev known_cache : KeyCache
known_cache = record { key = some signing_key; last_update = pos 0 }

keys_run :
    run_keys short_json
      (key_call none ∷ key_call (some (200, some (codes "AQID"))) ∷ key_call none ∷ [])
      new_cache
    ≡ none ∷ some signing_key ∷ some signing_key ∷ []
unfolding get_public_key fetch_public_key digits_of bytes_of encode big_bytes_from set_bytes_from
    ◌-ℤ◌
keys_run = refl

run_keys-AllKeysAfter_example :
    AllCurrent short_json known_cache
      (key_call none ∷ [])
      (run_keys short_json (key_call none ∷ []) known_cache)
    × AllKeysAfter known_cache.key (run_keys short_json (key_call none ∷ []) known_cache)
run_keys-AllKeysAfter_example = run_keys-AllKeysAfter short_json (key_call none ∷ []) known_cache

get_public_key-generate_jwks_json_example :
    get_public_key short_json (key_call (some (200, some (codes "AQID")))) new_cache
    ≡ (some signing_key, record { key = some signing_key; last_update = pos 20000000001 })
unfolding encode big_bytes_from
get_public_key-generate_jwks_json_example =
    get_public_key-generate_jwks_json short_json (key_call (some (200, some (codes "AQID"))))
      new_cache signing_key (codes "AQID") (λ h. refl) refl refl refl refl
