-- ===== src/External/InternalAuth/Secret.antt =====
-- What a secret that was written lets through (external/internal_auth.go).
use casa_os_common.Common.{
  ℕ, ◌≡◌, ◌≢◌, ◌↔◌, ◌⊎◌, ◌<◌, ◌/◌, ◌%◌, refl, sym, ap, ◌∙◌, arith, Bool, true, false, Option, none,
  some, [], ◌∷◌, ◌++◌, Bytes, AllBytes, codes, eq_bytes_iff, inl, inr, Bool-cases,
}
use mathlib.Core.Path.{subst}
use casa_os_common.Utils.Version.{is_space, add_front, trim_space, drop_spaces, drop_end_spaces}
use casa_os_common.External.InternalAuth.{
  SecretFile, owner_only, internal_scheme, hex_digit, hex, Calls, write_internal_secret,
  read_internal_secret, is_loopback_ip, is_internal_request, header_of, internal_authorization,
  Request, is_loopback_host, edit_request,
}

hex_digit_visible : (n : ℕ) → n < 16 → is_space (hex_digit n) ≡ false
hex_digit_visible n h = ground arith

hex_digit_injective : (n k : ℕ) → n < 16 → k < 16 → hex_digit n ≡ hex_digit k → n ≡ k
hex_digit_injective n k h h' e = ground arith

-- No character of a string is white space.
abbrev Visible : Bytes → Type 0
Visible [] = Unit
Visible (c ∷ s) = (is_space c ≡ false) × Visible s

hex-Visible : (s : Bytes) → AllBytes s → Visible (hex s)
unfolding hex
hex-Visible [] h = tt
hex-Visible (b ∷ s) (l, h) = (
  hex_digit_visible (b / 16) (omega (arith, l)),
  (hex_digit_visible (b % 16) (omega (arith, l)), hex-Visible s h),
)

hex_injective : (s t : Bytes) → AllBytes s → AllBytes t → hex s ≡ hex t → s ≡ t
unfolding hex
hex_injective [] [] h h' e = refl
hex_injective [] (b ∷ t) h h' e = absurd (ground arith)
hex_injective (b ∷ s) [] h h' e = absurd (ground arith)
hex_injective (a ∷ s) (b ∷ t) (l, h) (l', h') e =
    let q = hex_digit_injective (a / 16) (b / 16) (omega (arith, l)) (omega (arith, l')) (cc) in
    let r = hex_digit_injective (a % 16) (b % 16) (omega (arith, l)) (omega (arith, l')) (cc) in
    let p : a ≡ b = omega (arith, q, r) in let w : s ≡ t = hex_injective s t h h' (cc) in cc

drop_end_spaces-Visible : (s : Bytes) → Visible s → drop_end_spaces (s ++ 10 ∷ []) ≡ s
unfolding drop_end_spaces
drop_end_spaces-Visible [] h = refl
drop_end_spaces-Visible (c ∷ []) (v, h) = ground (arith, v)
drop_end_spaces-Visible (c ∷ d ∷ s) (v, h) = ap (add_front c) (drop_end_spaces-Visible (d ∷ s) h)

drop_spaces_visible : (c : ℕ) (s : Bytes) → is_space c ≡ false → drop_spaces (c ∷ s) ≡ c ∷ s
unfolding drop_spaces
drop_spaces_visible c s v = ground (arith, v)

-- The file behind a write of random bytes.
abbrev pub secret_file : Bytes → SecretFile
secret_file raw = record { contents = hex raw ++ 10 ∷ []; mode = owner_only }

read_internal_secret-Visible :
    (s : Bytes) (m : ℕ)
    → s ≢ []
    → Visible s
    → read_internal_secret (some (record { contents = s ++ 10 ∷ []; mode = m })) ≡ some s
unfolding read_internal_secret
read_internal_secret-Visible [] m n h = absurd (n refl)
read_internal_secret-Visible (c ∷ s) m n (v, h) =
    let p : trim_space (c ∷ s ++ 10 ∷ []) ≡ c ∷ s =
      ap drop_end_spaces (drop_spaces_visible c (s ++ 10 ∷ []) v)
      ∙ drop_end_spaces-Visible (c ∷ s) (v, h) in
    rw p refl

hex_nonempty : (s : Bytes) → s ≢ [] → hex s ≢ []
unfolding hex
hex_nonempty [] n = n
hex_nonempty (b ∷ s) n = λ q. ground arith

read_secret_file :
    (raw : Bytes)
    → raw ≢ []
    → AllBytes raw
    → read_internal_secret (some (secret_file raw)) ≡ some (hex raw)
read_secret_file raw n h =
    read_internal_secret-Visible (hex raw) owner_only (hex_nonempty raw n) (hex-Visible raw h)

-- What the services send after such a write.
abbrev pub secret_header : Bytes → Bytes
secret_header raw = internal_scheme ++ hex raw

pub internal_authorization-secret_file :
    (raw : Bytes)
    → raw ≢ []
    → AllBytes raw
    → internal_authorization (some (secret_file raw)) ≡ secret_header raw
unfolding internal_authorization
internal_authorization-secret_file raw n h = ap header_of (read_secret_file raw n h)

-- A loopback address, as it is spelled in a request.
abbrev pub IsLoopback : Bytes → Type 0
IsLoopback ip = (ip ≡ codes "127.0.0.1") ⊎ (ip ≡ codes "::1")

is_loopback_ip-IsLoopback : (ip : Bytes) → (is_loopback_ip ip ≡ true) ↔ IsLoopback ip
is_loopback_ip-IsLoopback ip =
    ground (arith, eq_bytes_iff ip (codes "127.0.0.1"), eq_bytes_iff ip (codes "::1"))

-- A file lets a request through exactly where it comes from loopback with the header.
abbrev pub Admits : Option SecretFile → Bytes → Type 0
Admits file header =
    (ip authorization : Bytes)
    → (is_internal_request ip authorization file ≡ true)
      ↔ (IsLoopback ip × (authorization ≡ header))

secret_file-Admits :
    (raw : Bytes) → raw ≢ [] → AllBytes raw → Admits (some (secret_file raw)) (secret_header raw)
unfolding is_internal_request
secret_file-Admits raw n h ip authorization =
    simp (read_secret_file raw n h)
      (ground (arith, is_loopback_ip-IsLoopback ip, eq_bytes_iff authorization (secret_header raw)))

write_internal_secret_ok :
    (c : Calls) (raw : Bytes) (file : Option SecretFile)
    → c.random ≡ some raw
    → (write_internal_secret c file).0 ≡ true
    → (write_internal_secret c file).1 ≡ some (secret_file raw)
unfolding write_internal_secret
write_internal_secret_ok c raw none q e = ground (arith, q)
write_internal_secret_ok c raw (some f) q e = ground (arith, q)

-- Behind a write that succeeds: the file is the owner's alone, and lets a request through exactly
-- where it comes from loopback with the header of the new secret.
abbrev pub IsFresh : Option SecretFile → Bytes → Type 0
IsFresh file raw =
    ((f : SecretFile) × (file ≡ some f) × (f.mode ≡ owner_only))
    × (internal_authorization file ≡ secret_header raw)
    × Admits file (secret_header raw)

-- Where WriteInternalSecret returns nil, with a string of random bytes that is not empty, and
-- whatever file was there: the file has the mode 0600, whoever can read it sends the header of the
-- new secret, and a request is internal exactly when it comes from 127.0.0.1 or ::1 with that header.
pub write_internal_secret-IsFresh :
    (c : Calls) (raw : Bytes) (file : Option SecretFile)
    → c.random ≡ some raw
    → raw ≢ []
    → AllBytes raw
    → (write_internal_secret c file).0 ≡ true
    → IsFresh (write_internal_secret c file).1 raw
write_internal_secret-IsFresh c raw file q n h e =
    subst (λ f. IsFresh f raw) (sym (write_internal_secret_ok c raw file q e))
      (
        (secret_file raw, refl, refl),
        internal_authorization-secret_file raw n h,
        secret_file-Admits raw n h,
      )

append_cancel : (s t u : Bytes) → s ++ t ≡ s ++ u → t ≡ u
append_cancel [] t u e = e
append_cancel (c ∷ s) t u e = append_cancel s t u (cc)

-- The header of another boot's secret is refused.
pub is_internal_request_stale :
    (file : Option SecretFile) (raw former ip : Bytes)
    → AllBytes raw
    → AllBytes former
    → raw ≢ former
    → Admits file (secret_header raw)
    → is_internal_request ip (secret_header former) file ≡ false
is_internal_request_stale file raw former ip h h' n a =
    elim (Bool-cases (is_internal_request ip (secret_header former) file)) [
      | inl b ↦
          (let q = ((a ip (secret_header former)).0 b).1 in
            absurd (n (sym (hex_injective former raw h' h (append_cancel internal_scheme _ _ q)))))
      | inr b ↦ b
    ]

module _ {IP : Type 0} (parse_ip : Bytes → Option IP) (is_loopback : IP → Bool) where
  -- What the editor makes of a request, where the secret's header is the given one.
  abbrev pub IsEdited : Bytes → Request → Request → Type 0
  IsEdited header req req' =
      (req'.hostname ≡ req.hostname)
      × (((req'.authorization ≡ req.authorization)
            × ((req.authorization ≢ [])
                ⊎ (is_loopback_host parse_ip is_loopback req.hostname ≡ false)))
          ⊎ ((req'.authorization ≡ header)
              × (req.authorization ≡ [])
              × (is_loopback_host parse_ip is_loopback req.hostname ≡ true)))

  pub edit_request-IsEdited :
      (file : Option SecretFile) (req : Request)
      → IsEdited (internal_authorization file) req (edit_request parse_ip is_loopback file req)
  unfolding edit_request
  edit_request-IsEdited file req =
      ground
        (arith, eq_bytes_iff req.authorization [], eq_bytes_iff (internal_authorization file) [])

  -- Behind a write that returns nil: the editor gives the header of the new secret to the requests
  -- to a loopback host that have none, and leaves all others as they are; and the header of any
  -- other secret of bytes, such as that of a boot before, is refused from everywhere.
  pub edit_request-write_internal_secret :
      (c : Calls) (raw former : Bytes) (file : Option SecretFile) (req : Request) (ip : Bytes)
      → c.random ≡ some raw
      → raw ≢ []
      → AllBytes raw
      → AllBytes former
      → raw ≢ former
      → (write_internal_secret c file).0 ≡ true
      → IsEdited
          (secret_header raw)
          req
          (edit_request parse_ip is_loopback (write_internal_secret c file).1 req)
        × (is_internal_request ip (secret_header former) (write_internal_secret c file).1 ≡ false)
  edit_request-write_internal_secret c raw former file req ip q n h h' d e =
      let new = (write_internal_secret c file).1 in
      let (owned, sends, admits) = write_internal_secret-IsFresh c raw file q n h e in
      (
        subst (λ x. IsEdited x req (edit_request parse_ip is_loopback new req)) sends
            (edit_request-IsEdited new req),
        is_internal_request_stale new raw former ip h h' d admits,
      )
