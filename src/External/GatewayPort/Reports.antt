-- ===== src/External/GatewayPort/Reports.antt =====
-- What the callback of the gateway port watcher (external/gateway_port_watcher.go) is told.
use casa_os_common.Common.{
  ◌≡◌, refl, ap, arith, Bool, true, false, Option, none, some, List, [], ◌∷◌, ◌++◌, Bytes, inl, inr,
  ◌⊎◌, Bool-cases, Option-cases, sym,
}
use mathlib.Core.Path.{subst}
use casa_os_common.Common.Int.{ℤ}
use casa_os_common.External.GatewayPort.Config.{
  Config, Failure, Result, ok, err, IniFile, is_out_of_range, http_switch, read_ssl, read_config,
  eq_config,
}
use casa_os_common.External.GatewayPort.Refresh.{
  State, Glance, read_metadata, is_same, take_config, refresh,
}
use casa_os_common.External.GatewayPort.Watch.{
  Signal, done, events_closed, errors_closed, watch_error, event, tick, Progress, stopped,
  use_polling, waiting, Loop, add_told, watch_fsnotify, watch_polling, run_loops, watch, Watcher,
  path_of, is_config_event,
}

pub Result-cases :
    {A : Type 0} (r : Result A) → ((a : A) × (r ≡ ok a)) ⊎ ((x : Failure) × (r ≡ err x))
Result-cases (ok a) = inl (a, refl)
Result-cases (err x) = inr (x, refl)

-- Both ports are from 1 to 65535.
abbrev pub InRange : Config → Type 0
InRange c = (is_out_of_range c.http_port ≡ false) × (is_out_of_range c.https_port ≡ false)

get_ok : {A : Type 0} → A → Result A → A
get_ok d (ok a) = a
get_ok d (err x) = d

pub ok_inj : {A : Type 0} {a b : A} → ok a ≡ ok b → a ≡ b
unfolding get_ok
ok_inj {a = a} e = ap (λ r. get_ok a r) e

read_ssl-InRange :
    (f : IniFile) (port : ℤ) (on : Bool) (c : Config)
    → is_out_of_range port ≡ false
    → read_ssl f port on ≡ ok c
    → InRange c
unfolding read_ssl
read_ssl-InRange f port on c r h = elim (Option-cases f.ssl_port) [
  | inl n ↦ ground (arith, n)
  | inr (p, e) ↦ elim (Bool-cases (is_out_of_range p)) [
    | inl o ↦ ground (arith, e, o)
    | inr o ↦ elim (Option-cases f.ssl_enabled) [
      | inl n ↦ ground (arith, e, o, n)
      | inr (b, g) ↦
          (let q : record { http_enabled = on; http_port = port; https_port = p; https_enabled = b }
                ≡ c =
              ok_inj (ground (arith, h, e, o, g)) in
            subst (λ x. InRange x) q (r, o))
    ]
  ]
]

pub read_config-InRange : (f : Option IniFile) (c : Config) → read_config f ≡ ok c → InRange c
unfolding read_config
read_config-InRange none c h = ground arith
read_config-InRange (some f) c h = elim (Option-cases f.port) [
  | inl n ↦ ground (arith, n)
  | inr (p, e) ↦ elim (Bool-cases (is_out_of_range p)) [
    | inl o ↦ ground (arith, e, o)
    | inr o ↦ elim (Option-cases (http_switch f)) [
      | inl n ↦ ground (arith, e, o, n)
      | inr (b, g) ↦ read_ssl-InRange f p b c o (ground (arith, h, e, o, g))
    ]
  ]
]

-- Reports that start behind a config: each has ports in range and differs from the one before it, and the
-- last is the config known at the end.
abbrev pub Follows : Config → List Config → Option Config → Type 0
Follows d [] q = q ≡ some d
Follows d (c ∷ cs) q = (eq_config d c ≡ false) × InRange c × Follows c cs q

-- The same from any state: without a config, the first one is not told.
abbrev pub Reports : Option Config → List Config → Option Config → Type 0
Reports (some d) told q = Follows d told q
Reports none told q = ((told ≡ []) × (q ≡ none)) ⊎ ((c : Config) × (InRange c × Follows c told q))

abbrev pub reported : Option Config → List Config
reported none = []
reported (some c) = c ∷ []

take_config-Reports :
    (c : Config) (st : State)
    → InRange c
    → Reports st.config (reported (take_config c st).1) (take_config c st).0.config
unfolding take_config
take_config-Reports c st r = elim (Option-cases st.config) [
  | inl n ↦ simp (take_config, n) (inr (c, (r, refl)))
  | inr (d, e) ↦ elim (Bool-cases (eq_config d c)) [
    | inl q ↦ simp (take_config, e, q) refl
    | inr q ↦ simp (take_config, e, q) (refl, r, refl)
  ]
]

Follows-append :
    (d : Config) (cs ds : List Config) (p q : Option Config)
    → Follows d cs p
    → Reports p ds q
    → Follows d (cs ++ ds) q
Follows-append d [] ds p q f r = subst (λ x. Reports x ds q) f r
Follows-append d (c ∷ cs) ds p q (n, i, f) r = (n, i, Follows-append c cs ds p q f r)

Reports-append :
    (o p q : Option Config) (cs ds : List Config)
    → Reports o cs p
    → Reports p ds q
    → Reports o (cs ++ ds) q
Reports-append (some d) p q cs ds f r = Follows-append d cs ds p q f r
Reports-append none p q cs ds (inl (e, n)) r =
    subst (λ l. Reports none (l ++ ds) q) (sym e) (subst (λ x. Reports x ds q) n r)
Reports-append none p q cs ds (inr (c, (i, f))) r = inr (c, (i, Follows-append c cs ds p q f r))

Reports-still : (o : Option Config) → Reports o [] o
Reports-still none = inl (refl, refl)
Reports-still (some d) = refl

refresh-Reports :
    (forced : Bool) (g : Glance) (st : State)
    → Reports st.config (reported (refresh forced g st).1) (refresh forced g st).0.config
unfolding refresh
refresh-Reports forced g st = elim (Result-cases (read_metadata g.info)) [
  | inr (x, e) ↦ simp (refresh, e) (Reports-still st.config)
  | inl (m, e) ↦ elim (Bool-cases (is_same forced st.metadata m)) [
    | inl s ↦ simp (refresh, e, s) (Reports-still st.config)
    | inr s ↦ elim (Result-cases (read_config g.file)) [
      | inr (x, c) ↦ simp (refresh, e, s, c) (Reports-still st.config)
      | inl (c, h) ↦
          (simp (refresh, e, s, h)
            (take_config-Reports c (record st { metadata = some m })
              (read_config-InRange g.file c h)))
    ]
  ]
]

pub Progress-cases : (p : Progress) → (p ≡ use_polling) ⊎ (p ≡ stopped) ⊎ (p ≡ waiting)
Progress-cases use_polling = inl refl
Progress-cases stopped = inr (inl refl)
Progress-cases waiting = inr (inr refl)

-- A loop reports from the state it starts in.
abbrev LoopReports : Option Config → Loop → Type 0
LoopReports o l = Reports o l.told l.state.config

add_told-LoopReports :
    (o p : Option Config) (told : Option Config) (l : Loop)
    → Reports o (reported told) p
    → LoopReports p l
    → LoopReports o (add_told told l)
add_told-LoopReports o p none l r s = Reports-append o p l.state.config [] l.told r s
add_told-LoopReports o p (some c) l r s = Reports-append o p l.state.config (c ∷ []) l.told r s

module _ (default_path : Bytes) (clean : Bytes → Bytes) where
  watch_fsnotify-LoopReports :
      (path : Bytes) (sigs : List Signal) (st : State)
      → LoopReports st.config (watch_fsnotify default_path clean path sigs st)
  unfolding watch_fsnotify
  watch_fsnotify-LoopReports path [] st = Reports-still st.config
  watch_fsnotify-LoopReports path (done ∷ sigs) st = Reports-still st.config
  watch_fsnotify-LoopReports path (events_closed ∷ sigs) st = Reports-still st.config
  watch_fsnotify-LoopReports path (errors_closed ∷ sigs) st = Reports-still st.config
  watch_fsnotify-LoopReports path (watch_error ∷ sigs) st = Reports-still st.config
  watch_fsnotify-LoopReports path (tick g ∷ sigs) st = watch_fsnotify-LoopReports path sigs st
  watch_fsnotify-LoopReports path (event e g ∷ sigs) st =
      let r = refresh true g st in
      elim (Bool-cases (is_config_event default_path clean e path)) [
        | inl u ↦
            (let l = watch_fsnotify default_path clean path sigs r.0 in
              simp (watch_fsnotify, u)
                (add_told-LoopReports st.config r.0.config r.1 l (refresh-Reports true g st)
                  (watch_fsnotify-LoopReports path sigs r.0)))
        | inr u ↦ simp (watch_fsnotify, u) (watch_fsnotify-LoopReports path sigs st)
      ]

  watch_polling-LoopReports :
      (sigs : List Signal) (st : State)
      → LoopReports st.config (watch_polling default_path clean sigs st)
  unfolding watch_polling
  watch_polling-LoopReports [] st = Reports-still st.config
  watch_polling-LoopReports (done ∷ sigs) st = Reports-still st.config
  watch_polling-LoopReports (tick g ∷ sigs) st =
      let r = refresh false g st in
      let l = watch_polling default_path clean sigs r.0 in
      add_told-LoopReports st.config r.0.config r.1 l (refresh-Reports false g st)
        (watch_polling-LoopReports sigs r.0)
  watch_polling-LoopReports (events_closed ∷ sigs) st = watch_polling-LoopReports sigs st
  watch_polling-LoopReports (errors_closed ∷ sigs) st = watch_polling-LoopReports sigs st
  watch_polling-LoopReports (watch_error ∷ sigs) st = watch_polling-LoopReports sigs st
  watch_polling-LoopReports (event e g ∷ sigs) st = watch_polling-LoopReports sigs st

  run_loops-LoopReports :
      (notifies : Bool) (path : Bytes) (sigs : List Signal) (st : State)
      → LoopReports st.config (run_loops default_path clean notifies path sigs st)
  unfolding run_loops
  run_loops-LoopReports false path sigs st = watch_polling-LoopReports sigs st
  run_loops-LoopReports true path sigs st =
      let l = watch_fsnotify default_path clean path sigs st in
      let f = watch_fsnotify-LoopReports path sigs st in
      elim (Progress-cases l.progress) [
        | inl e ↦
            (let p = watch_polling default_path clean l.left l.state in
              simp (run_loops, e)
                (Reports-append st.config l.state.config p.state.config l.told p.told f
                  (watch_polling-LoopReports l.left l.state)))
        | inr (inl e) ↦ simp (run_loops, e) f
        | inr (inr e) ↦ simp (run_loops, e) f
      ]

  pub Reports-watch :
      (w : Watcher) (notifies : Bool) (first : Glance) (sigs : List Signal)
      → w.has_callback ≡ true
      → Reports none
          (watch default_path clean true w notifies first sigs).2
          (watch default_path clean true w notifies first sigs).1.config
  unfolding watch
  Reports-watch w notifies first sigs h =
      let none_yet : State = record { metadata = none; config = none } in
      let r = refresh true first none_yet in
      let l = run_loops default_path clean notifies (path_of default_path clean w) sigs r.0 in
      simp (watch, h)
        (add_told-LoopReports none r.0.config r.1 l (refresh-Reports true first none_yet)
          (run_loops-LoopReports notifies (path_of default_path clean w) sigs r.0))
