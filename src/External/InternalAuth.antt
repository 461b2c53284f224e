-- ===== src/External/InternalAuth.antt =====
-- The secret by which the services of a box know each other (external/internal_auth.go). Strings
-- are ASCII, so that TrimSpace removes the six ASCII spaces.
pub mod Secret
mod Tests
use casa_os_common.Common.{
  ℕ, ◌/◌, ◌%◌, ◌+◌, Bool, true, false, not, ◌&&◌, ◌||◌, Option, none, some, List, [], ◌∷◌, ◌++◌,
  ltb, if◌then◌else◌, Bytes, codes, eq_bytes,
}
use casa_os_common.Utils.Version.{trim_space, drop_spaces, drop_end_spaces}

-- The file of the secret in the runtime path: its contents and its permission bits.
pub record SecretFile : Type 0 where
  pub contents : Bytes
  pub mode : ℕ

-- 0o600
abbrev pub owner_only : ℕ
owner_only = 384

abbrev pub internal_scheme : Bytes
internal_scheme = codes "Internal "

-- `hex.EncodeToString`
abbrev pub hex_digit : ℕ → ℕ
hex_digit n = if ltb n 10 then 48 + n else 87 + n

unfoldable pub hex : Bytes → Bytes
hex [] = []
hex (b ∷ s) = hex_digit (b / 16) ∷ hex_digit (b % 16) ∷ hex s

-- What the calls of one write give: the random bytes, or an error; that `os.WriteFile` succeeds, and
-- the file that it leaves where it does not; that `os.Chmod` succeeds.
pub record Calls : Type 0 where
  pub random : Option Bytes
  pub written : Bool
  pub left : Option SecretFile
  pub changed : Bool

-- `os.WriteFile(path, contents, mode)` where it succeeds: it keeps the mode of a file that exists.
abbrev pub write_file : Bytes → ℕ → Option SecretFile → SecretFile
write_file s mode none = record { contents = s; mode = mode }
write_file s mode (some f) = record { contents = s; mode = f.mode }

-- `WriteInternalSecret`: whether it returns nil, and the file behind it
unfoldable pub write_internal_secret : Calls → Option SecretFile → Bool × Option SecretFile
write_internal_secret c file = elim c.random [
  | none ↦ (false, file)
  | some raw ↦
      (let f = write_file (hex raw ++ 10 ∷ []) owner_only file in
        if not c.written
        then (false, c.left)
        else if c.changed
        then (true, some (record f { mode = owner_only }))
        else (false, some f))
]

-- `readInternalSecret`; the file is `none` where it cannot be read
unfoldable pub read_internal_secret : Option SecretFile → Option Bytes
read_internal_secret none = none
read_internal_secret (some f) = not_empty (trim_space f.contents)
  where
    not_empty : Bytes → Option Bytes
    not_empty [] = none
    not_empty (c ∷ s) = some (c ∷ s)

-- `isLoopbackIP`
abbrev pub is_loopback_ip : Bytes → Bool
is_loopback_ip ip = eq_bytes ip (codes "127.0.0.1") || eq_bytes ip (codes "::1")

-- `IsInternalRequest`, with the file in the runtime path
unfoldable pub is_internal_request : Bytes → Bytes → Option SecretFile → Bool
is_internal_request real_ip authorization file =
    if not (is_loopback_ip real_ip) then false else elim (read_internal_secret file) [
      | none ↦ false
      | some secret ↦ eq_bytes authorization (internal_scheme ++ secret)
    ]

-- The header that carries a secret, empty where there is none.
abbrev pub header_of : Option Bytes → Bytes
header_of none = []
header_of (some secret) = internal_scheme ++ secret

-- `InternalAuthorization`
unfoldable pub internal_authorization : Option SecretFile → Bytes
internal_authorization file = header_of (read_internal_secret file)

-- What the editor reads and writes of a request: `URL.Hostname()`, and the header Authorization,
-- empty where it is not set.
pub record Request : Type 0 where
  pub hostname : Bytes
  pub authorization : Bytes

-- `parse_ip` is `net.ParseIP`, `is_loopback` its method `IsLoopback`.
module _ {IP : Type 0} (parse_ip : Bytes → Option IP) (is_loopback : IP → Bool) where
  -- `isLoopbackHost`
  abbrev pub is_loopback_host : Bytes → Bool
  is_loopback_host host =
      if eq_bytes host (codes "localhost")
      then true
      else elim (parse_ip host) [ none ↦ false | some ip ↦ is_loopback ip ]

  -- `InternalRequestEditor`
  unfoldable pub edit_request : Option SecretFile → Request → Request
  edit_request file req =
      if not (eq_bytes req.authorization []) || not (is_loopback_host req.hostname)
      then req
      else (let authorization = internal_authorization file in
          if eq_bytes authorization [] then req else record req { authorization = authorization })
