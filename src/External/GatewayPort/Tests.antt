-- ===== src/External/GatewayPort/Tests.antt =====
-- Runs of the gateway port watcher (external/gateway_port_watcher.go), and instances of its theorems.
use casa_os_common.Common.{
  ◌≡◌, refl, ap, arith, true, false, Option, none, some, List, [], ◌∷◌, ◌++◌, Bytes, codes,
  eq_bytes,
}
use casa_os_common.Common.Int.{ℤ, pos}
use casa_os_common.External.GatewayPort.Config.{Config, IniFile, read_config, read_ssl}
use casa_os_common.External.GatewayPort.Refresh.{State, Glance, Metadata, refresh, take_config}
use casa_os_common.External.GatewayPort.Watch.{
  Watcher, new_watcher, with_poll_interval, Event, Signal, event, tick, watch_error, done,
  returned_nil, watch, watch_fsnotify, watch_polling, run_loops,
}
use casa_os_common.External.GatewayPort.Reports.{ok_inj, Reports}
use casa_os_common.External.GatewayPort.Reads.{changes, configs_read, looks, watch-Reports}
use casa_os_common.External.GatewayPort.Polling.{read_always, watch_polling-read_always}
use casa_os_common.External.GatewayPort.Stops.{watch_of_done}

abbrev path : Bytes
path = codes "/etc/casaos/gateway.ini"

abbrev ini : ℤ → Option IniFile
ini port = some (record {
  port = some port;
  has_enabled = false;
  enabled = none;
  ssl_port = some (pos 443);
  ssl_enabled = some false;
})

abbrev config : ℤ → Config
config port = record {
  http_enabled = true;
  http_port = port;
  https_port = pos 443;
  https_enabled = false;
}

abbrev seen : ℤ → ℤ → Glance
seen time port = record {
  info = some (record { is_dir = false; metadata = record { mod_time = time; size = pos 50 } });
  file = ini port;
}

abbrev written : Event
written = record {
  name = path;
  is_write = true;
  is_create = false;
  is_rename = false;
  is_remove = false;
  is_chmod = false;
}

abbrev watcher : Watcher
watcher = new_watcher path (λ p. p) true (with_poll_interval (pos 5) ∷ [])

-- A change, a port out of range, an error of the file watcher, and a change seen by polling.
abbrev signals : List Signal
signals =
    event written (seen (pos 2) (pos 81))
    ∷ event written (seen (pos 3) (pos 0))
    ∷ watch_error
    ∷ tick (seen (pos 4) (pos 82))
    ∷ []

told_run :
    (watch path (λ p. p) true watcher true (seen (pos 1) (pos 80)) signals).2
    ≡ config (pos 81) ∷ config (pos 82) ∷ []
unfolding watch run_loops watch_fsnotify watch_polling refresh take_config read_config read_ssl
    eq_bytes
told_run = refl

watch-Reports_example :
    ((watch path (λ p. p) true watcher true (seen (pos 1) (pos 80)) signals).2
      ≡ changes none (
          configs_read
            ((true, seen (pos 1) (pos 80)) ∷ looks path (λ p. p) true path signals)
            none))
    × Reports none
        (watch path (λ p. p) true watcher true (seen (pos 1) (pos 80)) signals).2
        (watch path (λ p. p) true watcher true (seen (pos 1) (pos 80)) signals).1.config
watch-Reports_example =
    watch-Reports path (λ p. p) watcher true (seen (pos 1) (pos 80)) signals refl

watch_of_done_example :
    (watch path (λ p. p) true watcher true (seen (pos 1) (pos 80)) (signals ++ done ∷ [])).0
    ≡ returned_nil
watch_of_done_example =
    watch_of_done path (λ p. p) watcher true (seen (pos 1) (pos 80)) (signals ++ done ∷ []) refl

-- The port is the time of the last change.
abbrev disk : Metadata → Option IniFile
disk m = ini m.mod_time

abbrev ticks : List Signal
ticks = tick (seen (pos 7) (pos 7)) ∷ tick (seen (pos 7) (pos 7)) ∷ tick (seen (pos 9) (pos 9)) ∷ []

abbrev start : State
start = record { metadata = none; config = none }

watch_polling-read_always_example :
    watch_polling path (λ p. p) ticks start ≡ read_always disk ticks start
watch_polling-read_always_example =
    watch_polling-read_always disk path (λ p. p) ticks start (λ m c h r. ground arith)
      (
        λ m h. ap (λ x. disk x) (ok_inj h),
        (λ m h. ap (λ x. disk x) (ok_inj h), (λ m h. ap (λ x. disk x) (ok_inj h), tt)),
      )
