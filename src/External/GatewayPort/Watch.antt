-- ===== src/External/GatewayPort/Watch.antt =====
-- `NewGatewayPortWatcher` and `Watch` of external/gateway_port_watcher.go. A `select` takes any case that
-- is ready: the list of signals says which it took, one after the other.
use casa_os_common.Common.{
  ◌*◌, Bool, true, false, not, ◌&&◌, ◌||◌, Option, none, some, List, [], ◌∷◌, ◌++◌, if◌then◌else◌,
  Bytes, eq_bytes, length, ◌==◌,
}
use casa_os_common.Common.Int.{ℤ, pos, leb_ℤ}
use casa_os_common.External.GatewayPort.Config.{Config}
use casa_os_common.External.GatewayPort.Refresh.{State, Glance, refresh}

-- `GatewayPortWatcher`; the callback is there or nil
pub record Watcher : Type 0 where
  pub config_path : Bytes
  pub poll_interval : ℤ
  pub has_callback : Bool

-- `DefaultGatewayPortWatcherPollInterval`, in nanoseconds
abbrev pub default_poll_interval : ℤ
default_poll_interval = pos (10 * 1000000000)

-- `GatewayPortWatcherOption`, with its two constructors
abbrev pub WatcherOption : Type 0
WatcherOption = Watcher → Watcher

abbrev pub with_config_path : Bytes → WatcherOption
with_config_path path w = record w { config_path = path }

abbrev pub with_poll_interval : ℤ → WatcherOption
with_poll_interval interval w = record w { poll_interval = interval }

abbrev pub apply_options : List WatcherOption → Watcher → Watcher
apply_options [] w = w
apply_options (opt ∷ opts) w = apply_options opts (opt w)

-- `fsnotify.Event`, with its operations
pub record Event : Type 0 where
  pub name : Bytes
  pub is_write : Bool
  pub is_create : Bool
  pub is_rename : Bool
  pub is_remove : Bool
  pub is_chmod : Bool

-- A case of a `select`: `glance` is the file that a refresh in it sees. A channel that is closed gives
-- `events_closed` or `errors_closed`.
pub data Signal : Type 0 where
  done events_closed errors_closed watch_error : Signal
  event : Event → Glance → Signal
  tick : Glance → Signal

-- How a loop stands after the signals: it has returned nil or `errGatewayPortUsePolling`, or waits.
pub data Progress : Type 0 where
  stopped use_polling waiting : Progress

-- What `Watch` returns: an error for a nil context or callback, nil, `errGatewayPortUsePolling` or nothing
-- yet.
pub data Returned : Type 0 where
  nil_context nil_callback returned_nil returned_use_polling running : Returned

-- The state after a loop, the configs that the callback got, the signals left, and how it stands.
pub record Loop : Type 0 where
  pub state : State
  pub told : List Config
  pub left : List Signal
  pub progress : Progress

abbrev pub add_told : Option Config → Loop → Loop
add_told none l = l
add_told (some c) l = record l { told = c ∷ l.told }

module _ (default_path : Bytes) (clean : Bytes → Bytes) where
  -- `NewGatewayPortWatcher`
  abbrev pub new_watcher : Bool → List WatcherOption → Watcher
  new_watcher callback opts = apply_options opts (record {
    config_path = default_path;
    poll_interval = default_poll_interval;
    has_callback = callback;
  })

  -- `isGatewayPortConfigEvent`; `clean` is `filepath.Clean`
  abbrev pub is_config_event : Event → Bytes → Bool
  is_config_event e path =
      (e.is_write || e.is_create || e.is_rename || e.is_remove || e.is_chmod)
      && eq_bytes (clean e.name) (clean path)

  -- `watchWithFSNotify`
  unfoldable pub watch_fsnotify : Bytes → List Signal → State → Loop
  unfolding refresh
  watch_fsnotify path [] st = record { state = st; told = []; left = []; progress = waiting }
  watch_fsnotify path (done ∷ sigs) st = record {
    state = st;
    told = [];
    left = sigs;
    progress = stopped;
  }
  watch_fsnotify path (events_closed ∷ sigs) st = record {
    state = st;
    told = [];
    left = sigs;
    progress = use_polling;
  }
  watch_fsnotify path (errors_closed ∷ sigs) st = record {
    state = st;
    told = [];
    left = sigs;
    progress = use_polling;
  }
  watch_fsnotify path (watch_error ∷ sigs) st = record {
    state = st;
    told = [];
    left = sigs;
    progress = use_polling;
  }
  watch_fsnotify path (event e g ∷ sigs) st =
      let (st', told, failed) = refresh true g st in
      let used = is_config_event e path in
      let rest = watch_fsnotify path sigs (if used then st' else st) in
      add_told (if used then told else none) rest
  watch_fsnotify path (tick g ∷ sigs) st = watch_fsnotify path sigs st

  -- `watchWithPolling`
  unfoldable pub watch_polling : List Signal → State → Loop
  unfolding refresh
  watch_polling [] st = record { state = st; told = []; left = []; progress = waiting }
  watch_polling (done ∷ sigs) st = record { state = st; told = []; left = sigs; progress = stopped }
  watch_polling (tick g ∷ sigs) st =
      let (st', told, failed) = refresh false g st in add_told told (watch_polling sigs st')
  watch_polling (_ ∷ sigs) st = watch_polling sigs st

  abbrev pub returned : Progress → Returned
  returned waiting = running
  returned stopped = returned_nil
  returned use_polling = returned_use_polling

  -- The end of `Watch`: the loops, where `notifies` tells that the file watcher could be made.
  unfoldable pub run_loops : Bool → Bytes → List Signal → State → Loop
  unfolding watch_fsnotify watch_polling
  run_loops false path sigs st = watch_polling sigs st
  run_loops true path sigs st =
      let l = watch_fsnotify path sigs st in
      elim l.progress [
        | use_polling ↦
            (let p = watch_polling l.left l.state in record p { told = l.told ++ p.told })
        | stopped ↦ l
        | waiting ↦ l
      ]

  abbrev pub path_of : Watcher → Bytes
  path_of w = if length w.config_path == 0 then default_path else w.config_path

  -- The interval of the ticks.
  abbrev pub interval_of : Watcher → ℤ
  interval_of w = if leb_ℤ w.poll_interval (pos 0) then default_poll_interval else w.poll_interval

  -- `Watch`: what it returns, the state, and the configs that the callback got. `first` is the file at
  -- the first refresh.
  unfoldable pub watch :
      Bool → Watcher → Bool → Glance → List Signal → Returned × State × List Config
  unfolding refresh run_loops
  watch has_context w notifies first sigs =
      let none_yet : State = record { metadata = none; config = none } in
      let (st, told, failed) = refresh true first none_yet in
      let l = add_told told (run_loops notifies (path_of w) sigs st) in
      if not has_context
      then (nil_context, none_yet, [])
      else if not w.has_callback
      then (nil_callback, none_yet, [])
      else (returned l.progress, l.state, l.told)
