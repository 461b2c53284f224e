-- ===== src/External/GatewayPort/Refresh.antt =====
-- The state of a watch and `refresh` of external/gateway_port_watcher.go.
use casa_os_common.Common.{Bool, false, not, ◌&&◌, Option, none, some, if◌then◌else◌}
use casa_os_common.Common.Int.{ℤ, eq_ℤ}
use casa_os_common.External.GatewayPort.Config.{
  Config, Failure, stat_failed, is_directory, Result, ok, err, IniFile, read_config, eq_config,
}

-- `gatewayPortConfigMetadata`; the time of the last change as an integer
pub record Metadata : Type 0 where
  pub mod_time : ℤ
  pub size : ℤ

-- `equal`
abbrev pub eq_metadata : Metadata → Metadata → Bool
eq_metadata m n = eq_ℤ m.size n.size && eq_ℤ m.mod_time n.mod_time

-- `gatewayPortWatchState`: `metadata` is `none` without `hasMetadata`, `config` without `hasConfig`
pub record State : Type 0 where
  pub metadata : Option Metadata
  pub config : Option Config

-- What `os.Stat` gives.
pub record FileInfo : Type 0 where
  pub is_dir : Bool
  pub metadata : Metadata

-- The file at a call of `refresh`: what `os.Stat` and then `ini.Load` give, `none` on an error. It may
-- change between these two.
pub record Glance : Type 0 where
  pub info : Option FileInfo
  pub file : Option IniFile

-- `readGatewayPortConfigMetadata`
abbrev pub read_metadata : Option FileInfo → Result Metadata
read_metadata none = err stat_failed
read_metadata (some i) = if i.is_dir then err is_directory else ok i.metadata

-- `!forceRead && state.hasMetadata && metadata.equal(state.metadata)`
abbrev pub is_same : Bool → Option Metadata → Metadata → Bool
is_same forced none m = false
is_same forced (some n) m = not forced && eq_metadata m n

-- The rest of `refresh`, with a config that was read: the state, and the config that the callback gets.
unfoldable pub take_config : Config → State → State × Option Config
take_config c st = elim st.config [
  | none ↦ (record st { config = some c }, none)
  | some d ↦ if eq_config d c then (st, none) else (record st { config = some c }, some c)
]

-- `refresh`: the state, the config that the callback gets, if it is called, and the error.
unfoldable pub refresh : Bool → Glance → State → State × Option Config × Option Failure
unfolding read_config take_config
refresh forced g st = elim (read_metadata g.info) [
  | err x ↦ (record st { metadata = none }, none, some x)
  | ok m ↦
      (let st' = record st { metadata = some m } in
        if is_same forced st.metadata m then (st, none, none) else elim (read_config g.file) [
          | err x ↦ (st', none, some x)
          | ok c ↦ (let (st'', told) = take_config c st' in (st'', told, none))
        ])
]
