-- ===== src/External/InternalAuth/Tests.antt =====
-- Runs of external/internal_auth.go, and instances of its theorems.
use casa_os_common.Common.{
  ◌≡◌, refl, arith, Bool, true, false, Option, none, some, [], ◌∷◌, Bytes, codes, eq_bytes,
  if◌then◌else◌,
}
use casa_os_common.Utils.Version.{drop_spaces, drop_end_spaces}
use casa_os_common.External.InternalAuth.{
  SecretFile, hex, Calls, write_internal_secret, read_internal_secret, is_internal_request, Request,
  edit_request,
}
use casa_os_common.External.InternalAuth.Secret.{
  secret_header, IsFresh, write_internal_secret-IsFresh, IsEdited,
  edit_request-write_internal_secret,
}

abbrev boot : Calls
boot = record { random = some (10 ∷ 255 ∷ []); written = true; left = none; changed = true }

-- A file that others can read is there already.
abbrev old_file : Option SecretFile
old_file = some (record { contents = codes "0bfe\n"; mode = 420 })

secret_text : hex (10 ∷ 255 ∷ []) ≡ codes "0aff"
unfolding hex
secret_text = refl

internal_run :
    is_internal_request
      (codes "::1")
      (codes "Internal 0aff")
      (write_internal_secret boot old_file).1
    ≡ true
unfolding is_internal_request write_internal_secret read_internal_secret hex eq_bytes drop_spaces
    drop_end_spaces
internal_run = refl

empty_run :
    is_internal_request
      (codes "::1")
      (codes "Internal ")
      (some (record { contents = []; mode = 0 }))
    ≡ false
unfolding is_internal_request read_internal_secret eq_bytes drop_spaces drop_end_spaces
empty_run = refl

-- The only host with an address here is 127.0.0.2.
abbrev parse_host : Bytes → Option Bool
parse_host s = if eq_bytes s (codes "127.0.0.2") then some true else none

abbrev to_gateway : Request
to_gateway = record { hostname = codes "127.0.0.2"; authorization = [] }

write_internal_secret-IsFresh_example :
    IsFresh (write_internal_secret boot old_file).1 (10 ∷ 255 ∷ [])
unfolding write_internal_secret
write_internal_secret-IsFresh_example =
    write_internal_secret-IsFresh boot (10 ∷ 255 ∷ []) old_file refl (λ q. ground arith)
      (omega arith) refl

edit_request-write_internal_secret_example :
    IsEdited parse_host
      (λ b. b)
      (secret_header (10 ∷ 255 ∷ []))
      to_gateway
      (edit_request parse_host (λ b. b) (write_internal_secret boot old_file).1 to_gateway)
    × (is_internal_request
          (codes "::1")
          (secret_header (11 ∷ 254 ∷ []))
          (write_internal_secret boot old_file).1
        ≡ false)
unfolding write_internal_secret
edit_request-write_internal_secret_example =
    edit_request-write_internal_secret parse_host (λ b. b) boot (10 ∷ 255 ∷ []) (11 ∷ 254 ∷ [])
      old_file to_gateway (codes "::1") refl (λ q. ground arith) (omega arith) (omega arith)
      (λ q. ground arith) refl
