-- ===== src/External/UserService/Refusals.antt =====
-- Where the errors of ParseToken come from (external/user_service.go).
use casa_os_common.Common.{
  ℕ, ◌≡◌, refl, sym, ap, arith, Bool, true, false, not, Option, none, some, List, [], ◌∷◌, ◌⊎◌, inl,
  inr, ◌==◌, if◌then◌else◌, Bytes, eq_bytes,
}
use mathlib.Core.Path.{subst}
use casa_os_common.Common.Int.{ℤ}
use casa_os_common.Stats.Store.Clock.{Time, unix}
use casa_os_common.Utils.Version.{trim_space}
use casa_os_common.External.UserService.{
  verdict_of_body, Sentinel, invalid, expired, ParsedToken, TokenError, token_empty, refused,
  status_code, failed, Cache, TokenCall, is_sent, is_expired, Verdict, accepts, rejects, verdict,
  settle, ask_unless, parse_token,
}

-- An answer that refuses its token: 401, or a parsed token that is not valid; or one that has expired.
abbrev pub IsReason : ℤ → Option (ℕ × Option ParsedToken) → Sentinel → Type 0
IsReason now answer invalid =
    ((b : Option ParsedToken) × (answer ≡ some (401, b)))
    ⊎ ((p : ParsedToken) × (answer ≡ some (200, some p)) × (p.valid ≡ false))
IsReason now answer expired =
    (p : ParsedToken) × (answer ≡ some (200, some p)) × (p.valid ≡ true) × (is_expired now p ≡ true)

-- A call asked for the token and was answered so.
abbrev pub IsCause : TokenCall × Bytes → Bytes → Sentinel → Type 0
IsCause (c, token) key v =
    (trim_space token ≡ key) × (is_sent c ≡ true) × IsReason (unix c.now) c.answer v

-- One of the calls did, the newest being the first.
abbrev pub HasCause : List (TokenCall × Bytes) → Bytes → Sentinel → Type 0
HasCause [] key v = ⊥
HasCause (x ∷ xs) key v = IsCause x key v ⊎ HasCause xs key v

-- What a verdict says of the answer.
abbrev IsFounded : ℤ → Option (ℕ × Option ParsedToken) → Verdict → Type 0
IsFounded now answer (accepts p) =
    (answer ≡ some (200, some p)) × (p.valid ≡ true) × (is_expired now p ≡ false)
IsFounded now answer (rejects (refused v) none) = ⊥
IsFounded now answer (rejects e none) = Unit
IsFounded now answer (rejects (refused v) (some w)) = (v ≡ w) × IsReason now answer w
IsFounded now answer (rejects e (some w)) = IsReason now answer w

-- The verdict on a decoded token, by the two tests.
tests-IsFounded :
    (now : ℤ) (p : ParsedToken) (v x : Bool)
    → p.valid ≡ v
    → is_expired now p ≡ x
    → IsFounded now (some (200, some p)) (
        if not v
        then rejects (refused invalid) (some invalid)
        else if x
        then rejects (refused expired) (some expired)
        else accepts p)
tests-IsFounded now p false x h k = (refl, inr (p, refl, h))
tests-IsFounded now p true true h k = (refl, (p, refl, h, k))
tests-IsFounded now p true false h k = (refl, h, k)

verdict_of_body-IsFounded :
    (now : ℤ) (body : Option ParsedToken)
    → IsFounded now (some (200, body)) (verdict_of_body now body)
verdict_of_body-IsFounded now none = tt
verdict_of_body-IsFounded now (some p) = tests-IsFounded now p p.valid (is_expired now p) refl refl

status-IsFounded :
    (now : ℤ) (status : ℕ) (body : Option ParsedToken) (s t : Bool)
    → (status == 200) ≡ s
    → (status == 401) ≡ t
    → IsFounded now (some (status, body)) (
        if not s
        then rejects (status_code status) (if t then some invalid else none)
        else verdict_of_body now body)
status-IsFounded now status body true t h k =
    let e : 200 ≡ status = ground (arith, h) in
    subst (λ n. IsFounded now (some (n, body)) (verdict_of_body now body)) e
      (verdict_of_body-IsFounded now body)
status-IsFounded now status body false true h k =
    let e : status ≡ 401 = ground (arith, k) in inl (body, ap (λ n. some (n, body)) e)
status-IsFounded now status body false false h k = tt

verdict-IsFounded :
    (now : ℤ) (answer : Option (ℕ × Option ParsedToken)) → IsFounded now answer (verdict now answer)
verdict-IsFounded now none = tt
verdict-IsFounded now (some (status, body)) =
    status-IsFounded now status body (status == 200) (status == 401) refl refl

-- A result of a call: an accepted token is the one of an answer to this call, valid and not expired;
-- a refused one has a cause.
abbrev pub IsExplained :
    List (TokenCall × Bytes) → TokenCall → Bytes → TokenError ⊎ ParsedToken → Type 0
IsExplained past c key (inr p) =
    (is_sent c ≡ true)
    × (c.answer ≡ some (200, some p))
    × (p.valid ≡ true)
    × (is_expired (unix c.now) p ≡ false)
IsExplained past c key (inl (refused v)) = HasCause past key v
IsExplained past c key (inl e) = Unit

module _ {C : Type 0} (cache : Cache C) where
  -- All that the cache may give has a cause.
  abbrev pub AllCaused : List (TokenCall × Bytes) → C → Type 0
  AllCaused past c = (key : Bytes) (v : Sentinel) → cache.Holds c key v → HasCause past key v

  abbrev AfterCall :
      List (TokenCall × Bytes) → TokenCall → Bytes → (TokenError ⊎ ParsedToken) × C → Type 0
  AfterCall past c key q = IsExplained past c key q.0 × AllCaused past q.1

  put-AllCaused :
      (past : List (TokenCall × Bytes)) (key : Bytes) (v : Sentinel) (now : Time) (c : C)
      → AllCaused past c
      → HasCause past key v
      → AllCaused past (cache.put key v now c)
  put-AllCaused past key v now c h k j w held = elim (cache.put_after key v now c j w held) [
    | inl (e, e') ↦ subst (λ x. HasCause past x w) e (subst (λ x. HasCause past key x) e' k)
    | inr old ↦ h j w old
  ]

  settle-AfterCall :
      (past : List (TokenCall × Bytes)) (call : TokenCall) (token : Bytes) (d : Verdict) (c : C)
      → is_sent call ≡ true
      → IsFounded (unix call.now) call.answer d
      → AllCaused ((call, token) ∷ past) c
      → AfterCall
          ((call, token) ∷ past)
          call
          (trim_space token)
          (settle cache (trim_space token) call.now c d)
  settle-AfterCall past call token (accepts p) c s (f, g, k) h = ((s, f, g, k), h)
  settle-AfterCall past call token (rejects token_empty none) c s f h = (tt, h)
  settle-AfterCall past call token (rejects (refused v) none) c s f h = absurd f
  settle-AfterCall past call token (rejects (status_code n) none) c s f h = (tt, h)
  settle-AfterCall past call token (rejects failed none) c s f h = (tt, h)
  settle-AfterCall past call token (rejects token_empty (some w)) c s f h = (
    tt,
    put-AllCaused ((call, token) ∷ past) (trim_space token) w call.now c h (inl (refl, s, f)),
  )
  settle-AfterCall past call token (rejects (refused v) (some w)) c s (e, f) h = (
    subst (λ x. HasCause ((call, token) ∷ past) (trim_space token) x) (sym e) (inl (refl, s, f)),
    put-AllCaused ((call, token) ∷ past) (trim_space token) w call.now c h (inl (refl, s, f)),
  )
  settle-AfterCall past call token (rejects (status_code n) (some w)) c s f h = (
    tt,
    put-AllCaused ((call, token) ∷ past) (trim_space token) w call.now c h (inl (refl, s, f)),
  )
  settle-AfterCall past call token (rejects failed (some w)) c s f h = (
    tt,
    put-AllCaused ((call, token) ∷ past) (trim_space token) w call.now c h (inl (refl, s, f)),
  )

  ask-AfterCall :
      (past : List (TokenCall × Bytes)) (call : TokenCall) (token : Bytes) (c : C) (s : Bool)
      → is_sent call ≡ s
      → AllCaused ((call, token) ∷ past) c
      → AfterCall ((call, token) ∷ past) call (trim_space token) (
          if not s
          then (inl failed, c)
          else settle cache (trim_space token) call.now c (verdict (unix call.now) call.answer))
  ask-AfterCall past call token c true e h =
      settle-AfterCall past call token (verdict (unix call.now) call.answer) c e
        (verdict-IsFounded (unix call.now) call.answer) h
  ask-AfterCall past call token c false e h = (tt, h)

  -- A call behind others.
  later-AllCaused :
      (past : List (TokenCall × Bytes)) (x : TokenCall × Bytes) (c : C)
      → AllCaused past c
      → AllCaused (x ∷ past) c
  later-AllCaused past x c h = λ j v held. inr (h j v held)

  ask_unless-AfterCall :
      (past : List (TokenCall × Bytes)) (call : TokenCall) (token : Bytes) (q : Option Sentinel × C)
      → ((v : Sentinel) → q.0 ≡ some v → HasCause past (trim_space token) v)
      → AllCaused past q.1
      → AfterCall
          ((call, token) ∷ past)
          call
          (trim_space token)
          (ask_unless cache (trim_space token) call q)
  ask_unless-AfterCall past call token (some v, c) known h =
      (inr (known v refl), later-AllCaused past (call, token) c h)
  ask_unless-AfterCall past call token (none, c) known h =
      ask-AfterCall past call token c (is_sent call) refl (later-AllCaused past (call, token) c h)

  parse_token-AfterCall :
      (past : List (TokenCall × Bytes)) (call : TokenCall) (token : Bytes) (c : C)
      → AllCaused past c
      → AfterCall ((call, token) ∷ past) call (trim_space token) (parse_token cache call token c)
  unfolding parse_token
  parse_token-AfterCall past call token c h = by_empty (eq_bytes (trim_space token) [])
    where
      by_empty :
          (b : Bool)
          → AfterCall ((call, token) ∷ past) call (trim_space token) (
              if b
              then (inl token_empty, c)
              else ask_unless cache
                  (trim_space token)
                  call
                  (cache.get (trim_space token) call.now c))
      by_empty true = (tt, later-AllCaused past (call, token) c h)
      by_empty false =
          ask_unless-AfterCall past call token (cache.get (trim_space token) call.now c)
            (λ v e. h (trim_space token) v (cache.get-Holds (trim_space token) call.now c v e))
            (λ j v held. h j v (cache.get_after (trim_space token) call.now c j v held))

  -- Every call of a sequence is explained by its answer and those of the calls before it.
  abbrev pub AllExplained : List (TokenCall × Bytes) → List (TokenCall × Bytes) → C → Type 0
  AllExplained past [] c = Unit
  AllExplained past ((call, token) ∷ xs) c =
      IsExplained ((call, token) ∷ past) call (trim_space token) (parse_token cache call token c).0
      × AllExplained ((call, token) ∷ past) xs (parse_token cache call token c).1

  parse_token-AllExplained :
      (past xs : List (TokenCall × Bytes)) (c : C) → AllCaused past c → AllExplained past xs c
  parse_token-AllExplained past [] c h = tt
  parse_token-AllExplained past ((call, token) ∷ xs) c h =
      let q = parse_token-AfterCall past call token c h in
      (
        q.0,
        parse_token-AllExplained ((call, token) ∷ past) xs (parse_token cache call token c).1 q.1,
      )

  -- In any sequence of calls of ParseToken from a cache that holds nothing: a token is returned only
  -- where this call was sent and answered 200 with it, valid and not expired by then; and a token is
  -- refused as invalid or expired only where this call or one before asked for the same token,
  -- trimmed, and got the answer 401, or a token that was not valid, or for the latter one that had
  -- expired by then. So no failure of the service or of the way to it refuses a token.
  pub run_tokens-AllExplained :
      (xs : List (TokenCall × Bytes)) (c : C)
      → ((key : Bytes) (v : Sentinel) → cache.Holds c key v → ⊥)
      → AllExplained [] xs c
  run_tokens-AllExplained xs c empty = parse_token-AllExplained [] xs c empty
