-- ===== src/External/GatewayPort/Reads.antt =====
-- The configs that a watch of external/gateway_port_watcher.go reads, found without its state, and what
-- the callback is told of them.
use casa_os_common.Common.{
  ◌≡◌, refl, ap, arith, Bool, true, false, Option, none, some, List, [], ◌∷◌, ◌++◌, Bytes, inl, inr,
  Bool-cases, Option-cases, sym, ◌∙◌, if◌then◌else◌,
}
use mathlib.Core.List.{append-nil}
use casa_os_common.External.GatewayPort.Config.{Config, Failure, ok, err, read_config, eq_config}
use casa_os_common.External.GatewayPort.Refresh.{
  State, Metadata, Glance, read_metadata, is_same, take_config, refresh,
}
use casa_os_common.External.GatewayPort.Watch.{
  Signal, done, events_closed, errors_closed, watch_error, event, tick, Progress, stopped,
  use_polling, waiting, Loop, add_told, watch_fsnotify, watch_polling, run_loops, watch, Watcher,
  path_of, is_config_event,
}
use casa_os_common.External.GatewayPort.Reports.{
  Result-cases, Progress-cases, reported, Reports, Reports-watch,
}

-- A look at the file: whether it is read in any case, and what it holds.
abbrev pub Look : Type 0
Look = Bool × Glance

-- The looks of polling: each tick before the cancellation.
abbrev pub polled : List Signal → List Look
polled [] = []
polled (done ∷ sigs) = []
polled (tick g ∷ sigs) = (false, g) ∷ polled sigs
polled (events_closed ∷ sigs) = polled sigs
polled (errors_closed ∷ sigs) = polled sigs
polled (watch_error ∷ sigs) = polled sigs
polled (event e g ∷ sigs) = polled sigs

-- The configs that looks read, from the metadata known: a look that is not forced reads nothing where the
-- metadata are those known; a failing stat makes them unknown, and a config that is refused counts not.
abbrev pub configs_read : List Look → Option Metadata → List Config
configs_read [] m = []
configs_read (x ∷ xs) m = elim (read_metadata x.1.info) [
  | err f ↦ configs_read xs none
  | ok n ↦
      (let same = configs_read xs m in
        let rest = configs_read xs (some n) in
        if is_same x.0 m n
        then same
        else elim (read_config x.1.file) [ err f ↦ rest | ok c ↦ c ∷ rest ])
]

-- Of a list of configs, each that differs from the one before it; the first follows the config given, and
-- without one it is left out.
abbrev pub changes : Option Config → List Config → List Config
changes o [] = []
changes none (c ∷ cs) = changes (some c) cs
changes (some d) (c ∷ cs) =
    let same = changes (some d) cs in
    let rest = changes (some c) cs in if eq_config d c then same else c ∷ rest

changes-take_config :
    (c : Config) (cs : List Config) (st : State)
    → reported (take_config c st).1 ++ changes (take_config c st).0.config cs
      ≡ changes st.config (c ∷ cs)
unfolding take_config
changes-take_config c cs st = elim (Option-cases st.config) [
  | inl n ↦ ground (arith, n)
  | inr (d, e) ↦ elim (Bool-cases (eq_config d c)) [
    | inl q ↦ ground (arith, e, q)
    | inr q ↦ ground (arith, e, q)
  ]
]

metadata-take_config : (c : Config) (st : State) → (take_config c st).0.metadata ≡ st.metadata
unfolding take_config
metadata-take_config c st = elim (Option-cases st.config) [
  | inl n ↦ ground (arith, n)
  | inr (d, e) ↦ elim (Bool-cases (eq_config d c)) [
    | inl q ↦ ground (arith, e, q)
    | inr q ↦ ground (arith, e, q)
  ]
]

-- What the callback gets for looks, from a state.
abbrev told_of : List Look → State → List Config
told_of xs st = changes st.config (configs_read xs st.metadata)

configs_read-failed :
    (x : Look) (xs : List Look) (m : Option Metadata) (f : Failure)
    → read_metadata x.1.info ≡ err f
    → configs_read (x ∷ xs) m ≡ configs_read xs none
configs_read-failed x xs m f e = simp (configs_read, e) refl

configs_read-same :
    (x : Look) (xs : List Look) (m : Option Metadata) (n : Metadata)
    → read_metadata x.1.info ≡ ok n
    → is_same x.0 m n ≡ true
    → configs_read (x ∷ xs) m ≡ configs_read xs m
configs_read-same x xs m n e s = simp (configs_read, e, s) refl

configs_read-refused :
    (x : Look) (xs : List Look) (m : Option Metadata) (n : Metadata) (f : Failure)
    → read_metadata x.1.info ≡ ok n
    → is_same x.0 m n ≡ false
    → read_config x.1.file ≡ err f
    → configs_read (x ∷ xs) m ≡ configs_read xs (some n)
configs_read-refused x xs m n f e s h = simp (configs_read, e, s, h) refl

configs_read-ok :
    (x : Look) (xs : List Look) (m : Option Metadata) (n : Metadata) (c : Config)
    → read_metadata x.1.info ≡ ok n
    → is_same x.0 m n ≡ false
    → read_config x.1.file ≡ ok c
    → configs_read (x ∷ xs) m ≡ c ∷ configs_read xs (some n)
configs_read-ok x xs m n c e s h = simp (configs_read, e, s, h) refl

told_of-refresh :
    (forced : Bool) (g : Glance) (xs : List Look) (st : State)
    → reported (refresh forced g st).1 ++ told_of xs (refresh forced g st).0
      ≡ told_of ((forced, g) ∷ xs) st
unfolding refresh
told_of-refresh forced g xs st =
    let look : Look = (forced, g) in
    let m = st.metadata in
    elim (Result-cases (read_metadata g.info)) [
      | inr (x, e) ↦
          simp (refresh, e)
            (ap (λ l. changes st.config l) (sym (configs_read-failed look xs m x e)))
      | inl (n, e) ↦ elim (Bool-cases (is_same forced m n)) [
        | inl s ↦
            simp (refresh, e, s)
              (ap (λ l. changes st.config l) (sym (configs_read-same look xs m n e s)))
        | inr s ↦ elim (Result-cases (read_config g.file)) [
          | inr (x, c) ↦
              simp (refresh, e, s, c)
                (ap (λ l. changes st.config l) (sym (configs_read-refused look xs m n x e s c)))
          | inl (c, h) ↦
              (let st' = record st { metadata = some n } in
                simp (refresh, e, s, h)
                  (ap
                      (λ k.
                        reported (take_config c st').1
                        ++ changes (take_config c st').0.config (configs_read xs k))
                      (metadata-take_config c st')
                    ∙ changes-take_config c (configs_read xs (some n)) st'
                    ∙ ap (λ l. changes st.config l) (sym (configs_read-ok look xs m n c e s h))))
        ]
      ]
    ]

told-add_told : (o : Option Config) (l : Loop) → (add_told o l).told ≡ reported o ++ l.told
told-add_told none l = refl
told-add_told (some c) l = refl

module _ (default_path : Bytes) (clean : Bytes → Bytes) where
  -- The looks that follow events: each event of the file, then polling.
  abbrev pub noticed : Bytes → List Signal → List Look
  noticed path [] = []
  noticed path (done ∷ sigs) = []
  noticed path (tick g ∷ sigs) = noticed path sigs
  noticed path (events_closed ∷ sigs) = polled sigs
  noticed path (errors_closed ∷ sigs) = polled sigs
  noticed path (watch_error ∷ sigs) = polled sigs
  noticed path (event e g ∷ sigs) =
      let rest = noticed path sigs in
      if is_config_event default_path clean e path then (true, g) ∷ rest else rest

  -- All looks of `Watch` behind the first.
  abbrev pub looks : Bool → Bytes → List Signal → List Look
  looks notifies path sigs = if notifies then noticed path sigs else polled sigs

  told-watch_polling :
      (sigs : List Signal) (st : State)
      → (watch_polling default_path clean sigs st).told ≡ told_of (polled sigs) st
  unfolding watch_polling
  told-watch_polling [] st = refl
  told-watch_polling (done ∷ sigs) st = refl
  told-watch_polling (tick g ∷ sigs) st =
      let r = refresh false g st in
      told-add_told r.1 (watch_polling default_path clean sigs r.0)
      ∙ ap (λ l. reported r.1 ++ l) (told-watch_polling sigs r.0)
      ∙ told_of-refresh false g (polled sigs) st
  told-watch_polling (events_closed ∷ sigs) st = told-watch_polling sigs st
  told-watch_polling (errors_closed ∷ sigs) st = told-watch_polling sigs st
  told-watch_polling (watch_error ∷ sigs) st = told-watch_polling sigs st
  told-watch_polling (event e g ∷ sigs) st = told-watch_polling sigs st

  -- What is told after a loop that follows events.
  abbrev told_later : Progress → List Signal → State → List Config
  told_later use_polling left st = (watch_polling default_path clean left st).told
  told_later stopped left st = []
  told_later waiting left st = []

  abbrev told_both : Loop → List Config
  told_both l = l.told ++ told_later l.progress l.left l.state

  told_both-add_told :
      (o : Option Config) (l : Loop) → told_both (add_told o l) ≡ reported o ++ told_both l
  told_both-add_told none l = refl
  told_both-add_told (some c) l = refl

  told_both-watch_fsnotify :
      (path : Bytes) (sigs : List Signal) (st : State)
      → told_both (watch_fsnotify default_path clean path sigs st) ≡ told_of (noticed path sigs) st
  unfolding watch_fsnotify
  told_both-watch_fsnotify path [] st = refl
  told_both-watch_fsnotify path (done ∷ sigs) st = refl
  told_both-watch_fsnotify path (events_closed ∷ sigs) st = told-watch_polling sigs st
  told_both-watch_fsnotify path (errors_closed ∷ sigs) st = told-watch_polling sigs st
  told_both-watch_fsnotify path (watch_error ∷ sigs) st = told-watch_polling sigs st
  told_both-watch_fsnotify path (tick g ∷ sigs) st = told_both-watch_fsnotify path sigs st
  told_both-watch_fsnotify path (event e g ∷ sigs) st =
      let r = refresh true g st in
      elim (Bool-cases (is_config_event default_path clean e path)) [
        | inl u ↦
            (let l = watch_fsnotify default_path clean path sigs r.0 in
              simp (watch_fsnotify, u)
                (told_both-add_told r.1 l
                  ∙ ap (λ t. reported r.1 ++ t) (told_both-watch_fsnotify path sigs r.0)
                  ∙ told_of-refresh true g (noticed path sigs) st))
        | inr u ↦ simp (watch_fsnotify, u) (told_both-watch_fsnotify path sigs st)
      ]

  told-run_loops :
      (notifies : Bool) (path : Bytes) (sigs : List Signal) (st : State)
      → (run_loops default_path clean notifies path sigs st).told
        ≡ told_of (looks notifies path sigs) st
  unfolding run_loops
  told-run_loops false path sigs st = told-watch_polling sigs st
  told-run_loops true path sigs st =
      let l = watch_fsnotify default_path clean path sigs st in
      let f = told_both-watch_fsnotify path sigs st in
      elim (Progress-cases l.progress) [
        | inl e ↦ simp (run_loops, e) (sym (ap (λ p. l.told ++ told_later p l.left l.state) e) ∙ f)
        | inr (inl e) ↦
            simp (run_loops, e)
              (sym (append-nil l.told)
                ∙ sym (ap (λ p. l.told ++ told_later p l.left l.state) e)
                ∙ f)
        | inr (inr e) ↦
            simp (run_loops, e)
              (sym (append-nil l.told)
                ∙ sym (ap (λ p. l.told ++ told_later p l.left l.state) e)
                ∙ f)
      ]

  -- Whatever signals Watch gets and whatever the file holds at each refresh, with a context and a
  -- callback: of the configs read, at the start and then at the events of the file or the ticks, the
  -- callback gets each that differs from the one before it, but not the first; each that it gets has
  -- ports from 1 to 65535, and the last is the config known at the end.
  pub watch-Reports :
      (w : Watcher) (notifies : Bool) (first : Glance) (sigs : List Signal)
      → w.has_callback ≡ true
      → ((watch default_path clean true w notifies first sigs).2
          ≡ changes none (
              configs_read
                ((true, first) ∷ looks notifies (path_of default_path clean w) sigs)
                none))
        × Reports none
            (watch default_path clean true w notifies first sigs).2
            (watch default_path clean true w notifies first sigs).1.config
  unfolding watch
  watch-Reports w notifies first sigs h =
      let none_yet : State = record { metadata = none; config = none } in
      let r = refresh true first none_yet in
      let path = path_of default_path clean w in
      let l = run_loops default_path clean notifies path sigs r.0 in
      (
        simp (watch, h)
            (told-add_told r.1 l
              ∙ ap (λ t. reported r.1 ++ t) (told-run_loops notifies path sigs r.0)
              ∙ told_of-refresh true first (looks notifies path sigs) none_yet),
        Reports-watch default_path clean w notifies first sigs h,
      )
