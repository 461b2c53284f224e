-- ===== src/External/UserService/Keys.antt =====
-- The key that GetPublicKey gives over many calls (external/user_service.go).
use casa_os_common.Common.{
  ◌≡◌, refl, ap, ◌∙◌, Bool, true, false, ◌&&◌, Option, none, some, List, [], ◌∷◌, ◌⊎◌, inl, inr,
  if◌then◌else◌, Bytes,
}
use mathlib.Core.Path.{subst}
use casa_os_common.Utils.Jwt.Keys.{
  public_key_from_jwks_json-generate_jwks_json, generate_jwks_json, jwk_of, PublicKey, Json,
}
use casa_os_common.External.UserService.{
  key_of_answer, KeyCache, KeyCall, is_fresh, fetched, keep, fetch_public_key, or_cached, is_some,
  get_public_key,
}

-- All calls return a key.
abbrev pub AllKeys : List (Option PublicKey) → Type 0
AllKeys [] = Unit
AllKeys (r ∷ rs) = (is_some r ≡ true) × AllKeys rs

-- The same, where a key is known before the calls.
abbrev pub AllKeysAfter : Option PublicKey → List (Option PublicKey) → Type 0
AllKeysAfter none rs = Unit
AllKeysAfter (some k) rs = AllKeys rs

module _ (json : Json) where
  -- The calls one after the other, with what each returns.
  abbrev pub run_keys : List KeyCall → KeyCache → List (Option PublicKey)
  run_keys [] st = []
  run_keys (c ∷ cs) st = let q = get_public_key json c st in q.0 ∷ run_keys cs q.1

  -- A call that returns the key of the last fetch that succeeded: that is less than ten seconds ago,
  -- or the fetch of this call fails.
  abbrev Stays : KeyCall → KeyCache → Option PublicKey → Type 0
  Stays c st r =
      (r ≡ st.key)
      × ((fetched json c ≡ none) ⊎ ((is_some st.key ≡ true) × (is_fresh c.now st ≡ true)))

  -- What the calls return, by the last fetch that succeeded.
  abbrev pub AllCurrent : KeyCache → List KeyCall → List (Option PublicKey) → Type 0
  AllCurrent st [] [] = Unit
  AllCurrent st (c ∷ cs) (r ∷ rs) =
      (Stays c st r × AllCurrent st cs rs)
      ⊎ ((j : PublicKey) × (r ≡ some j)
          × (fetched json c ≡ some j)
          × AllCurrent (record { key = some j; last_update = c.kept }) cs rs)
  AllCurrent st _ _ = ⊥

  -- One call.
  abbrev IsKept : KeyCall → KeyCache → Option PublicKey × KeyCache → Type 0
  IsKept c st q =
      (Stays c st q.0 × (q.1 ≡ st))
      ⊎ ((j : PublicKey) × (q.0 ≡ some j)
          × (fetched json c ≡ some j)
          × (q.1 ≡ record { key = some j; last_update = c.kept }))

  or_cached-IsKept :
      (c : KeyCall) (st : KeyCache) (f : Option PublicKey)
      → fetched json c ≡ f
      → IsKept c st (or_cached (keep c st f))
  or_cached-IsKept c st none h = inl ((refl, inl h), refl)
  or_cached-IsKept c st (some j) h = inr (j, refl, h, refl)

  get_public_key-IsKept : (c : KeyCall) (st : KeyCache) → IsKept c st (get_public_key json c st)
  unfolding get_public_key fetch_public_key
  get_public_key-IsKept c st = by_cache (is_some st.key) (is_fresh c.now st) refl refl
    where
      by_cache :
          (b f : Bool)
          → is_some st.key ≡ b
          → is_fresh c.now st ≡ f
          → IsKept c st (if b && f then (st.key, st) else or_cached (fetch_public_key json c st))
      by_cache true true h k = inl ((refl, inr (h, k)), refl)
      by_cache true false h k = or_cached-IsKept c st (fetched json c) refl
      by_cache false f h k = or_cached-IsKept c st (fetched json c) refl

  run_keys-AllCurrent : (cs : List KeyCall) (st : KeyCache) → AllCurrent st cs (run_keys cs st)
  run_keys-AllCurrent [] st = tt
  run_keys-AllCurrent (c ∷ cs) st =
      let q = get_public_key json c st in
      let ih = run_keys-AllCurrent cs q.1 in
      elim (get_public_key-IsKept c st) [
        | inl (stays, e) ↦ inl (stays, subst (λ t. AllCurrent t cs (run_keys cs q.1)) e ih)
        | inr (j, e, f, e') ↦ inr (j, e, f, subst (λ t. AllCurrent t cs (run_keys cs q.1)) e' ih)
      ]

  AllCurrent-AllKeys :
      (st : KeyCache) (cs : List KeyCall) (rs : List (Option PublicKey))
      → is_some st.key ≡ true
      → AllCurrent st cs rs
      → AllKeys rs
  AllCurrent-AllKeys st [] [] h a = tt
  AllCurrent-AllKeys st (c ∷ cs) (r ∷ rs) h (inl (s, a)) =
      (ap is_some s.0 ∙ h, AllCurrent-AllKeys st cs rs h a)
  AllCurrent-AllKeys st (c ∷ cs) (r ∷ rs) h (inr (j, e, f, a)) = (
    ap is_some e,
    AllCurrent-AllKeys (record { key = some j; last_update = c.kept }) cs rs refl a,
  )
  AllCurrent-AllKeys st [] (r ∷ rs) h a = absurd a
  AllCurrent-AllKeys st (c ∷ cs) [] h a = absurd a

  -- Over any sequence of calls of GetPublicKey, whatever the user service answers: each call returns
  -- the key that it fetches, or else the one of the last fetch that succeeded, and this only where its
  -- own fetch fails or that one is less than ten seconds ago; and once a key is known, no call fails.
  pub run_keys-AllKeysAfter :
      (cs : List KeyCall) (st : KeyCache)
      → AllCurrent st cs (run_keys cs st) × AllKeysAfter st.key (run_keys cs st)
  run_keys-AllKeysAfter cs st = (run_keys-AllCurrent cs st, by_key st.key refl)
    where
      by_key : (o : Option PublicKey) → st.key ≡ o → AllKeysAfter o (run_keys cs st)
      by_key none h = tt
      by_key (some k) h =
          AllCurrent-AllKeys st cs (run_keys cs st) (ap is_some h) (run_keys-AllCurrent cs st)

  -- A user service that serves the key that it signs with.
  served_key :
      (c : KeyCall) (k : PublicKey) (s : Bytes)
      → (json.marshal (jwk_of k ∷ []) ≡ some s → json.unmarshal s ≡ some (jwk_of k ∷ []))
      → generate_jwks_json json k ≡ some s
      → c.address && c.joined ≡ true
      → c.answer ≡ some (200, some s)
      → fetched json c ≡ some k
  served_key c k s reads h a b =
      (λ i. if a i then key_of_answer json (b i) else none)
      ∙ public_key_from_jwks_json-generate_jwks_json json k s reads h

  -- Where json.Unmarshal reads back what json.Marshal writes for this key: when the user service
  -- answers with the JSON that GenerateJwksJSON gives for its key, and the key last seen is not
  -- fresh, GetPublicKey returns that very key, and keeps it.
  pub get_public_key-generate_jwks_json :
      (c : KeyCall) (st : KeyCache) (k : PublicKey) (s : Bytes)
      → (json.marshal (jwk_of k ∷ []) ≡ some s → json.unmarshal s ≡ some (jwk_of k ∷ []))
      → generate_jwks_json json k ≡ some s
      → c.address && c.joined ≡ true
      → c.answer ≡ some (200, some s)
      → is_some st.key && is_fresh c.now st ≡ false
      → get_public_key json c st ≡ (some k, record { key = some k; last_update = c.kept })
  unfolding get_public_key fetch_public_key
  get_public_key-generate_jwks_json c st k s reads h a b stale =
      (λ i. if stale i then (st.key, st) else or_cached (fetch_public_key json c st))
      ∙ ap (λ o. or_cached (keep c st o)) (served_key c k s reads h a b)
