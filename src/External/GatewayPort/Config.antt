-- ===== src/External/GatewayPort/Config.antt =====
-- `ReadGatewayPortConfig` and `validateGatewayPort` of external/gateway_port_watcher.go.
use casa_os_common.Common.{Bool, true, false, ◌&&◌, ◌||◌, Option, none, some, if◌then◌else◌}
use casa_os_common.Common.Int.{ℤ, pos, ltb_ℤ, eq_ℤ}

-- `GatewayPortConfig`
pub record Config : Type 0 where
  pub http_enabled : Bool
  pub http_port : ℤ
  pub https_port : ℤ
  pub https_enabled : Bool

-- The errors, without their texts.
pub data Failure : Type 0 where
  stat_failed is_directory load_failed bad_port port_range bad_enabled : Failure
  bad_ssl_port ssl_port_range bad_ssl_enabled : Failure

pub data Result (A : Type 0) : Type 0 where
  ok : A → Result A
  err : Failure → Result A

-- What the ini package reads from a file: `port` and `ssl_port` are what `Int` gives for the keys `port`
-- of the sections `gateway` and `ssl`, `enabled` and `ssl_enabled` what `Bool` gives for the keys
-- `enabled`, each `none` on an error.
pub record IniFile : Type 0 where
  pub port : Option ℤ
  pub has_enabled : Bool
  pub enabled : Option Bool
  pub ssl_port : Option ℤ
  pub ssl_enabled : Option Bool

-- `validateGatewayPort`: whether it is an error
abbrev pub is_out_of_range : ℤ → Bool
is_out_of_range port = ltb_ℤ port (pos 1) || ltb_ℤ (pos 65535) port

-- The switch of HTTP, which is on where the key is missing.
abbrev pub http_switch : IniFile → Option Bool
http_switch f = if f.has_enabled then f.enabled else some true

-- `ReadGatewayPortConfig`, from the `ssl` section on.
unfoldable pub read_ssl : IniFile → ℤ → Bool → Result Config
read_ssl f port on = elim f.ssl_port [
  | none ↦ err bad_ssl_port
  | some ssl_port ↦
      (if is_out_of_range ssl_port then err ssl_port_range else elim f.ssl_enabled [
        | none ↦ err bad_ssl_enabled
        | some ssl_on ↦ ok (record {
          http_enabled = on;
          http_port = port;
          https_port = ssl_port;
          https_enabled = ssl_on;
        })
      ])
]

-- `ReadGatewayPortConfig`, on what `ini.Load` gives
unfoldable pub read_config : Option IniFile → Result Config
unfolding read_ssl
read_config none = err load_failed
read_config (some f) = elim f.port [
  | none ↦ err bad_port
  | some port ↦
      (if is_out_of_range port
        then err port_range
        else elim (http_switch f) [ none ↦ err bad_enabled | some on ↦ read_ssl f port on ])
]

abbrev pub eq_bool : Bool → Bool → Bool
eq_bool true b = b
eq_bool false true = false
eq_bool false false = true

-- `state.config == config`
abbrev pub eq_config : Config → Config → Bool
eq_config c d =
    eq_bool c.http_enabled d.http_enabled
    && eq_ℤ c.http_port d.http_port
    && eq_ℤ c.https_port d.https_port
    && eq_bool c.https_enabled d.https_enabled
