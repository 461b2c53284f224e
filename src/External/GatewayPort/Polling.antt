-- ===== src/External/GatewayPort/Polling.antt =====
-- The polling of the gateway port watcher (external/gateway_port_watcher.go) skips reads of a file that
-- looks the same.
use casa_os_common.Common.{
  ◌≡◌, refl, ap, arith, Bool, true, false, Option, none, some, List, [], ◌∷◌, Bytes, inl, inr,
  Bool-cases, Option-cases, sym, ◌∙◌,
}
use casa_os_common.Common.Int.{ℤ, eq_ℤ, eq_of_parts}
use casa_os_common.External.GatewayPort.Config.{
  Config, ok, IniFile, read_config, eq_config, eq_bool,
}
use casa_os_common.External.GatewayPort.Refresh.{
  State, Glance, Metadata, eq_metadata, read_metadata, take_config, refresh,
}
use casa_os_common.External.GatewayPort.Watch.{
  Signal, done, events_closed, errors_closed, watch_error, event, tick, stopped, waiting, Loop,
  add_told, watch_polling,
}
use casa_os_common.External.GatewayPort.Reports.{Result-cases, ok_inj}

eq_ℤ_sound : (a b : ℤ) → eq_ℤ a b ≡ true → a ≡ b
eq_ℤ_sound a b h = eq_of_parts a b (ground arith)

eq_bool_sound : (a b : Bool) → eq_bool a b ≡ true → a ≡ b
eq_bool_sound true b h = sym h
eq_bool_sound false true h = ground arith
eq_bool_sound false false h = refl

eq_bool_refl : (a : Bool) → eq_bool a a ≡ true
eq_bool_refl true = refl
eq_bool_refl false = refl

eq_metadata_sound : (m n : Metadata) → eq_metadata m n ≡ true → m ≡ n
eq_metadata_sound m n h = ground (arith, eq_ℤ_sound m.size n.size, eq_ℤ_sound m.mod_time n.mod_time)

eq_config_sound : (c d : Config) → eq_config c d ≡ true → c ≡ d
eq_config_sound c d h = ground (
  arith,
  eq_ℤ_sound c.http_port d.http_port,
  eq_ℤ_sound c.https_port d.https_port,
  eq_bool_sound c.http_enabled d.http_enabled,
  eq_bool_sound c.https_enabled d.https_enabled,
)

eq_config_refl : (c : Config) → eq_config c c ≡ true
eq_config_refl c = ground (arith, eq_bool_refl c.http_enabled, eq_bool_refl c.https_enabled)

module _ (disk : Metadata → Option IniFile) where
  -- What was read last is what the metadata stands for.
  abbrev pub IsSynced : State → Type 0
  IsSynced st =
      (m : Metadata) (c : Config)
      → st.metadata ≡ some m
      → read_config (disk m) ≡ ok c
      → st.config ≡ some c

  -- The file has the contents that its metadata stands for.
  abbrev pub IsTold : Glance → Type 0
  IsTold g = (m : Metadata) → read_metadata g.info ≡ ok m → g.file ≡ disk m

  take_config_same : (c : Config) (st : State) → st.config ≡ some c → take_config c st ≡ (st, none)
  unfolding take_config
  take_config_same c st h = ground (arith, h, eq_config_refl c)

  config-take_config : (c : Config) (st : State) → (take_config c st).0.config ≡ some c
  unfolding take_config
  config-take_config c st = elim (Option-cases st.config) [
    | inl n ↦ ground (arith, n)
    | inr (d, e) ↦ ground (arith, e, eq_config_sound d c)
  ]

  refresh_same_file :
      (g : Glance) (st : State) (m n : Metadata)
      → IsSynced st
      → IsTold g
      → read_metadata g.info ≡ ok m
      → st.metadata ≡ some n
      → eq_metadata n m ≡ true
      → refresh true g st ≡ (st, none, (refresh true g st).2)
  unfolding refresh
  refresh_same_file g st m n s t e h q =
      let p = eq_metadata_sound n m q in
      let st' = record st { metadata = some m } in
      let same : st' ≡ st = ground (arith, h, p) in
      elim (Result-cases (read_config g.file)) [
        | inr (x, c) ↦ ground (arith, e, h, c, same)
        | inl (c, r) ↦
            (let known = s m c (h ∙ ap (λ x. some x) p) (ap read_config (sym (t m e)) ∙ r) in
              ground (arith, e, h, r, same, take_config_same c st' known))
      ]

  -- A refresh that may skip the read leads to the same state and call of the callback.
  refresh_forced :
      (g : Glance) (st : State)
      → IsSynced st
      → IsTold g
      → ((refresh true g st).0 ≡ (refresh false g st).0)
        × ((refresh true g st).1 ≡ (refresh false g st).1)
  unfolding refresh
  refresh_forced g st s t = elim (Result-cases (read_metadata g.info)) [
    | inr (x, e) ↦ ground (arith, e)
    | inl (m, e) ↦ elim (Option-cases st.metadata) [
      | inl n ↦ ground (arith, e, n)
      | inr (n, h) ↦ elim (Bool-cases (eq_metadata n m)) [
        | inr q ↦ ground (arith, e, h, q)
        | inl q ↦ ground (arith, e, h, q, refresh_same_file g st m n s t e h q)
      ]
    ]
  ]

  metadata-take_config : (c : Config) (st : State) → (take_config c st).0.metadata ≡ st.metadata
  unfolding take_config
  metadata-take_config c st = ground arith

  refresh-IsSynced :
      (g : Glance) (st : State) → IsSynced st → IsTold g → IsSynced (refresh true g st).0
  unfolding refresh
  refresh-IsSynced g st s t m c h r = elim (Result-cases (read_metadata g.info)) [
    | inr (x, e) ↦ ground (arith, e, h)
    | inl (n, e) ↦
        (let st' = record st { metadata = some n } in
          elim (Result-cases (read_config g.file)) [
            | inr (x, q) ↦
                (let p : n ≡ m = ground (arith, e, h, q) in
                  ground (
                    arith,
                    e,
                    h,
                    q,
                    r,
                    t n e,
                    ap (λ k. read_config (disk k)) p,
                    ap read_config (t n e),
                  ))
            | inl (d, q) ↦
                (let k = metadata-take_config d st' in
                  let p : n ≡ m = ground (arith, e, h, q, k) in
                  let z : d ≡ c =
                    ok_inj
                      (sym q ∙ ap read_config (t n e) ∙ ap (λ k. read_config (disk k)) p ∙ r) in
                  ground (arith, e, h, q, z, config-take_config d st'))
          ])
  ]

  -- Polling that reads the file at every tick.
  unfoldable pub read_always : List Signal → State → Loop
  read_always [] st = record { state = st; told = []; left = []; progress = waiting }
  read_always (done ∷ sigs) st = record { state = st; told = []; left = sigs; progress = stopped }
  read_always (tick g ∷ sigs) st = let r = refresh true g st in add_told r.1 (read_always sigs r.0)
  read_always (_ ∷ sigs) st = read_always sigs st

  abbrev pub AllTold : List Signal → Type 0
  AllTold [] = Unit
  AllTold (tick g ∷ sigs) = IsTold g × AllTold sigs
  AllTold (_ ∷ sigs) = AllTold sigs

module _ (disk : Metadata → Option IniFile) (default_path : Bytes) (clean : Bytes → Bytes) where
  -- Where the contents of the file are those that its time and size stand for, at each tick and at the
  -- last read before, polling tells the callback the same configs, and ends in the same state, as if it
  -- read the file at every tick.
  pub watch_polling-read_always :
      (sigs : List Signal) (st : State)
      → IsSynced disk st
      → AllTold disk sigs
      → watch_polling default_path clean sigs st ≡ read_always disk sigs st
  unfolding watch_polling read_always
  watch_polling-read_always [] st s t = refl
  watch_polling-read_always (done ∷ sigs) st s t = refl
  watch_polling-read_always (tick g ∷ sigs) st s (t, ts) =
      let r = refresh true g st in
      let f = refresh_forced disk g st s t in
      let ih = watch_polling-read_always sigs r.0 (refresh-IsSynced disk g st s t) ts in
      ap (λ o. add_told o (watch_polling default_path clean sigs (refresh false g st).0)) (sym f.1)
      ∙ ap (λ x. add_told r.1 (watch_polling default_path clean sigs x)) (sym f.0)
      ∙ ap (λ l. add_told r.1 l) ih
  watch_polling-read_always (events_closed ∷ sigs) st s t = watch_polling-read_always sigs st s t
  watch_polling-read_always (errors_closed ∷ sigs) st s t = watch_polling-read_always sigs st s t
  watch_polling-read_always (watch_error ∷ sigs) st s t = watch_polling-read_always sigs st s t
  watch_polling-read_always (event e g ∷ sigs) st s t = watch_polling-read_always sigs st s t
