-- ===== src/External/UserService.antt =====
-- external/user_service.go: the key of the user service, and the tokens that it parses. What each
-- request gives, the clock and the cache of the package ecache are parameters.
pub mod Keys
pub mod Refusals
mod Tests
use casa_os_common.Common.{
  ℕ, ◌*◌, ◌≡◌, Bool, true, false, not, ◌&&◌, ◌||◌, Option, none, some, List, [], ◌∷◌, ◌⊎◌, inl, inr,
  ◌==◌, if◌then◌else◌, Bytes, codes, eq_bytes,
}
use casa_os_common.Common.Int.{ℤ, pos, ◌-ℤ◌, ltb_ℤ, leb_ℤ}
use casa_os_common.Stats.Store.Clock.{Time, second, unix}
use casa_os_common.Utils.Version.{trim_space, drop_spaces, drop_end_spaces}
use casa_os_common.Utils.Jwt.Keys.{PublicKey, Json, public_key_from_jwks_json}

-- `cachedPublicKey` and `lastUpdate`
pub record KeyCache : Type 0 where
  pub key : Option PublicKey
  pub last_update : Time

-- What a call of GetPublicKey meets: the clock when it looks at the cache and when it keeps a key,
-- that the address is read and joined, and the answer, if there is one: its status and its body.
pub record KeyCall : Type 0 where
  pub now : Time
  pub kept : Time
  pub address : Bool
  pub joined : Bool
  pub answer : Option (ℕ × Option Bytes)

-- `time.Since(lastUpdate) < 10*time.Second`
abbrev pub is_fresh : Time → KeyCache → Bool
is_fresh now st = ltb_ℤ (now -ℤ st.last_update) (pos (10 * second))

abbrev pub keep : KeyCall → KeyCache → Option PublicKey → Option PublicKey × KeyCache
keep c st none = (none, st)
keep c st (some k) = (some k, record { key = some k; last_update = c.kept })

-- Behind a fetch that gave an error, the key last seen.
abbrev pub or_cached : Option PublicKey × KeyCache → Option PublicKey × KeyCache
or_cached (some k, st) = (some k, st)
or_cached (none, st) = (st.key, st)

abbrev pub is_some : Option PublicKey → Bool
is_some none = false
is_some (some k) = true

module _ (json : Json) where
  -- The first key of the answer, which `PublicKeyFromJwksJSON` reads in the same way.
  abbrev pub key_of_answer : Option (ℕ × Option Bytes) → Option PublicKey
  key_of_answer none = none
  key_of_answer (some (status, none)) = none
  key_of_answer (some (status, some body)) =
      if not (status == 200) then none else public_key_from_jwks_json json body

  -- The key that `fetchPublicKey` gets.
  abbrev pub fetched : KeyCall → Option PublicKey
  fetched c = if c.address && c.joined then key_of_answer c.answer else none

  -- `fetchPublicKey`
  unfoldable pub fetch_public_key : KeyCall → KeyCache → Option PublicKey × KeyCache
  fetch_public_key c st = keep c st (fetched c)

  -- `GetPublicKey`
  unfoldable pub get_public_key : KeyCall → KeyCache → Option PublicKey × KeyCache
  get_public_key c st =
      if is_some st.key && is_fresh c.now st
      then (st.key, st)
      else or_cached (fetch_public_key c st)

-- `tokenCacheSentinel`
pub data Sentinel : Type 0 where
  invalid expired : Sentinel

-- `ParsedToken`
pub record ParsedToken : Type 0 where
  pub valid : Bool
  pub expires_at : ℤ
  pub username : Bytes
  pub role : Bytes
  pub user_id : ℤ

-- The errors of ParseToken: two of its own, those of a status, and any other.
pub data TokenError : Type 0 where
  token_empty : TokenError
  refused : Sentinel → TokenError
  status_code : ℕ → TokenError
  failed : TokenError

-- The cache of ecache, of 16 entries for a minute: `get` may change the order and forget, and both
-- may drop entries. `Holds` says which entries a cache may give.
pub record Cache (C : Type 0) : Type 1 where
  pub get : Bytes → Time → C → Option Sentinel × C
  pub put : Bytes → Sentinel → Time → C → C
  pub Holds : C → Bytes → Sentinel → Type 0
  pub get-Holds :
      (k : Bytes) (now : Time) (c : C) (v : Sentinel) → (get k now c).0 ≡ some v → Holds c k v
  pub get_after :
      (k : Bytes) (now : Time) (c : C) (j : Bytes) (v : Sentinel)
      → Holds (get k now c).1 j v
      → Holds c j v
  pub put_after :
      (k : Bytes) (w : Sentinel) (now : Time) (c : C) (j : Bytes) (v : Sentinel)
      → Holds (put k w now c) j v
      → ((k ≡ j) × (w ≡ v)) ⊎ Holds c j v

-- How the address file is found: a base URL, that it does not exist, or another error.
pub data Address : Type 0 where
  known missing unreadable : Address

-- What a call of ParseToken meets: that the body is marshalled; the address, and that it is joined; that
-- the request to the socket of the gateway is made; the answer to the request, if there is one, with what is
-- decoded of its body; and the clock.
pub record TokenCall : Type 0 where
  pub marshalled : Bool
  pub address : Address
  pub joined : Bool
  pub made : Bool
  pub answer : Option (ℕ × Option ParsedToken)
  pub now : Time

-- Whether a request is sent.
abbrev pub is_sent : TokenCall → Bool
is_sent c = c.marshalled && is_routed c.address
  where
    is_routed : Address → Bool
    is_routed known = c.joined
    is_routed missing = c.made
    is_routed unreadable = false

-- `isExpired`, with the clock in seconds
abbrev pub is_expired : ℤ → ParsedToken → Bool
is_expired now p = leb_ℤ p.expires_at now

-- What the service's answer is worth: the token, or an error, with what is put into the cache.
pub data Verdict : Type 0 where
  accepts : ParsedToken → Verdict
  rejects : TokenError → Option Sentinel → Verdict

-- Behind the status 200, by what is decoded of the body.
abbrev pub verdict_of_body : ℤ → Option ParsedToken → Verdict
verdict_of_body now none = rejects failed none
verdict_of_body now (some p) =
    if not p.valid
    then rejects (refused invalid) (some invalid)
    else if is_expired now p
    then rejects (refused expired) (some expired)
    else accepts p

abbrev pub verdict : ℤ → Option (ℕ × Option ParsedToken) → Verdict
verdict now none = rejects failed none
verdict now (some (status, body)) =
    if not (status == 200)
    then rejects (status_code status) (if status == 401 then some invalid else none)
    else verdict_of_body now body

module _ {C : Type 0} (cache : Cache C) where
  -- What a verdict makes of the cache, and of the call.
  abbrev pub settle : Bytes → Time → C → Verdict → (TokenError ⊎ ParsedToken) × C
  settle key now c (accepts p) = (inr p, c)
  settle key now c (rejects e none) = (inl e, c)
  settle key now c (rejects e (some v)) = (inl e, cache.put key v now c)

  -- The request, where the token is not known to be refused.
  abbrev pub ask : Bytes → TokenCall → C → (TokenError ⊎ ParsedToken) × C
  ask key call c =
      if not (is_sent call)
      then (inl failed, c)
      else settle key call.now c (verdict (unix call.now) call.answer)

  abbrev pub ask_unless : Bytes → TokenCall → Option Sentinel × C → (TokenError ⊎ ParsedToken) × C
  ask_unless key call (some v, c) = (inl (refused v), c)
  ask_unless key call (none, c) = ask key call c

  -- `ParseToken`
  unfoldable pub parse_token : TokenCall → Bytes → C → (TokenError ⊎ ParsedToken) × C
  parse_token call token c =
      let key = trim_space token in
      if eq_bytes key []
      then (inl token_empty, c)
      else ask_unless key call (cache.get key call.now c)
