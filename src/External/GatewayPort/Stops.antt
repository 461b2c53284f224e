-- ===== src/External/GatewayPort/Stops.antt =====
-- The end of `Watch` of external/gateway_port_watcher.go.
use casa_os_common.Common.{
  Bool-cases, ◌≡◌, refl, arith, Bool, true, false, Option, none, some, List, [], ◌∷◌, if◌then◌else◌,
  Bytes, inl, inr, ◌⊎◌, ◌∙◌, ap,
}
use casa_os_common.External.GatewayPort.Config.{Config}
use casa_os_common.External.GatewayPort.Refresh.{State, Glance, refresh}
use casa_os_common.External.GatewayPort.Watch.{
  running, waiting, Progress, Signal, done, events_closed, errors_closed, watch_error, event, tick,
  stopped, use_polling, Loop, add_told, watch_fsnotify, watch_polling, run_loops, watch, Watcher,
  path_of, returned, returned_nil, is_config_event,
}

-- The context is cancelled.
abbrev pub has_done : List Signal → Bool
has_done [] = false
has_done (done ∷ sigs) = true
has_done (events_closed ∷ sigs) = has_done sigs
has_done (errors_closed ∷ sigs) = has_done sigs
has_done (watch_error ∷ sigs) = has_done sigs
has_done (event e g ∷ sigs) = has_done sigs
has_done (tick g ∷ sigs) = has_done sigs

-- A loop over signals goes over to polling with the cancellation ahead, if there is one; or has stopped by
-- it; or waits for it.
abbrev EndsOn : List Signal → Loop → Type 0
EndsOn sigs l =
    ((l.progress ≡ use_polling) × (has_done l.left ≡ has_done sigs))
    ⊎ (((l.progress ≡ stopped) × (has_done sigs ≡ true))
        ⊎ ((l.progress ≡ waiting) × (has_done sigs ≡ false)))

EndsOn-add_told :
    (sigs : List Signal) (o : Option Config) (l : Loop) → EndsOn sigs l → EndsOn sigs (add_told o l)
EndsOn-add_told sigs none l e = e
EndsOn-add_told sigs (some c) l e = e

progress-add_told : (o : Option Config) (l : Loop) → (add_told o l).progress ≡ l.progress
progress-add_told none l = refl
progress-add_told (some c) l = refl

-- How a loop that does not go over to polling stands.
abbrev standing : List Signal → Progress
standing sigs = if has_done sigs then stopped else waiting

module _ (default_path : Bytes) (clean : Bytes → Bytes) where
  watch_fsnotify-EndsOn :
      (path : Bytes) (sigs : List Signal) (st : State)
      → EndsOn sigs (watch_fsnotify default_path clean path sigs st)
  unfolding watch_fsnotify
  watch_fsnotify-EndsOn path [] st = inr (inr (refl, refl))
  watch_fsnotify-EndsOn path (done ∷ sigs) st = inr (inl (refl, refl))
  watch_fsnotify-EndsOn path (events_closed ∷ sigs) st = inl (refl, refl)
  watch_fsnotify-EndsOn path (errors_closed ∷ sigs) st = inl (refl, refl)
  watch_fsnotify-EndsOn path (watch_error ∷ sigs) st = inl (refl, refl)
  watch_fsnotify-EndsOn path (tick g ∷ sigs) st = watch_fsnotify-EndsOn path sigs st
  watch_fsnotify-EndsOn path (event e g ∷ sigs) st =
      let r = refresh true g st in
      let used = is_config_event default_path clean e path in
      let st' = if used then r.0 else st in
      EndsOn-add_told sigs (if used then r.1 else none)
        (watch_fsnotify default_path clean path sigs st') (watch_fsnotify-EndsOn path sigs st')

  progress-watch_polling :
      (sigs : List Signal) (st : State)
      → (watch_polling default_path clean sigs st).progress ≡ standing sigs
  unfolding watch_polling
  progress-watch_polling [] st = refl
  progress-watch_polling (done ∷ sigs) st = refl
  progress-watch_polling (tick g ∷ sigs) st =
      let r = refresh false g st in
      progress-add_told r.1 (watch_polling default_path clean sigs r.0)
      ∙ progress-watch_polling sigs r.0
  progress-watch_polling (events_closed ∷ sigs) st = progress-watch_polling sigs st
  progress-watch_polling (errors_closed ∷ sigs) st = progress-watch_polling sigs st
  progress-watch_polling (watch_error ∷ sigs) st = progress-watch_polling sigs st
  progress-watch_polling (event e g ∷ sigs) st = progress-watch_polling sigs st

  progress-run_loops :
      (notifies : Bool) (path : Bytes) (sigs : List Signal) (st : State)
      → (run_loops default_path clean notifies path sigs st).progress ≡ standing sigs
  unfolding run_loops
  progress-run_loops false path sigs st = progress-watch_polling sigs st
  progress-run_loops true path sigs st =
      let l = watch_fsnotify default_path clean path sigs st in
      elim (watch_fsnotify-EndsOn path sigs st) [
        | inl (e, left) ↦ ground (arith, e, left, progress-watch_polling l.left l.state)
        | inr (inl (e, h)) ↦ ground (arith, e, h)
        | inr (inr (e, h)) ↦ ground (arith, e, h)
      ]

  returned-standing :
      (sigs : List Signal)
      → returned default_path clean (standing sigs)
        ≡ (if has_done sigs then returned_nil else running)
  returned-standing sigs = elim (Bool-cases (has_done sigs)) [
    | inl h ↦ ground (arith, h)
    | inr h ↦ ground (arith, h)
  ]

  -- With a context and a callback, Watch returns nil when the context is cancelled, and returns neither nil
  -- nor an error before that, whatever else comes: events, ticks, errors of the file watcher, closed
  -- channels, unreadable files, and with a file watcher or without.
  pub watch_of_done :
      (w : Watcher) (notifies : Bool) (first : Glance) (sigs : List Signal)
      → w.has_callback ≡ true
      → (watch default_path clean true w notifies first sigs).0
        ≡ (if has_done sigs then returned_nil else running)
  unfolding watch
  watch_of_done w notifies first sigs h =
      let r = refresh true first (record { metadata = none; config = none }) in
      let l = run_loops default_path clean notifies (path_of default_path clean w) sigs r.0 in
      let p =
        progress-add_told r.1 l
        ∙ progress-run_loops notifies (path_of default_path clean w) sigs r.0 in
      simp (watch, h) (ap (λ x. returned default_path clean x) p ∙ returned-standing sigs)
