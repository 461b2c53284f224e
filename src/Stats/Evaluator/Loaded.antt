-- ===== src/Stats/Evaluator/Loaded.antt =====
-- What holds of an evaluator that was loaded (pkg/stats/evaluator.go).
use casa_os_common.Common.{
  ℕ, ◌≡◌, refl, ◌∙◌, ap, arith, Bool, true, false, not, Option, none, some, List, [], ◌∷◌,
  if◌then◌else◌, inl, inr, Bool-cases, Option-cases, Bytes, eq_bytes, eq_bytes_iff,
}
use mathlib.Core.Path.{subst}
use casa_os_common.Common.Int.{eq_ℤ}
use casa_os_common.Common.Map
use casa_os_common.Common.Map.{Map}
use casa_os_common.Stats.Floats.{Floats}
use casa_os_common.Stats.Rules.{RuleError, contains, validate_rules}
use casa_os_common.Stats.Rules.Valid.{validate_rules-AllValid}
use casa_os_common.Stats.Evaluator.Item.{ItemState, Alert, find_alert, fresh, is_idle}
use casa_os_common.Stats.Evaluator.Alerts.{Distinct}
use casa_os_common.Stats.Evaluator.Machine.{Evaluator, state_of}
use casa_os_common.Stats.Evaluator.Invariant.{IsSound, IsWell}
use casa_os_common.Stats.Evaluator.Sound.{AllValid-AllKnown}
use casa_os_common.Stats.Evaluator.Load.{
  FileItem, StateFile, state_version, alerts_fit, with_runs, checked_runs, load_item, add_item,
  load_some, load_items, load, FileRead, absent, unreadable, holds, defaults, loaded, from_file,
}

module _ {F : Type 0} where
  -- A key that was seen has no alert further on.
  alerts_fit-find_alert :
      (k : Bytes) (seen : List Bytes) (l : List (Alert F))
      → contains seen k ≡ true
      → alerts_fit seen l ≡ true
      → find_alert k l ≡ none
  unfolding alerts_fit find_alert contains
  alerts_fit-find_alert k seen [] c h = refl
  alerts_fit-find_alert k seen (a ∷ l) c h =
      ground (arith, c, h, eq_bytes_iff a.key k, alerts_fit-find_alert k (a.key ∷ seen) l)

  alerts_fit-Distinct :
      (seen : List Bytes) (l : List (Alert F)) → alerts_fit seen l ≡ true → Distinct l
  unfolding alerts_fit contains
  alerts_fit-Distinct seen [] h = tt
  alerts_fit-Distinct seen (a ∷ l) h =
      let rest : alerts_fit (a.key ∷ seen) l ≡ true = ground (arith, h) in
      let c : contains (a.key ∷ seen) a.key ≡ true = ground (arith, eq_bytes_iff a.key a.key) in
      (
        alerts_fit-find_alert a.key (a.key ∷ seen) l c rest,
        alerts_fit-Distinct (a.key ∷ seen) l rest,
      )

module _ {F : Type 0} (fl : Floats F) where
  -- An item that load accepts, by its three tests.
  tests-IsSound :
      (st : FileItem F) (x : ItemState F) (v : Option RuleError) (b : Bool) (runs : Option (Map ℕ))
      → validate_rules fl st.rules ≡ v
      → alerts_fit [] st.active ≡ b
      → (elim v [ some e ↦ none | none ↦ if not b then none else with_runs fl st runs ]) ≡ some x
      → IsSound x
  tests-IsSound st x (some e) b runs p q h = absurd (ground arith)
  tests-IsSound st x none false runs p q h = absurd (ground arith)
  tests-IsSound st x none true none p q h = absurd (ground arith)
  tests-IsSound st x none true (some runs) p q h =
      let e : record { rules = st.rules; active = st.active; runs = runs; last = st.last } ≡ x =
        cc in
      subst (λ y. IsSound y) e
        (
          AllValid-AllKnown fl [] st.rules ((validate_rules-AllValid fl st.rules).0 p),
          alerts_fit-Distinct [] st.active q,
        )

  load_some-IsSound :
      (o : Option (FileItem F)) (x : ItemState F) → load_some fl o ≡ some x → IsSound x
  unfolding load_item
  load_some-IsSound none x h = absurd (ground arith)
  load_some-IsSound (some st) x h =
      tests-IsSound st x (validate_rules fl st.rules) (alerts_fit [] st.active)
        (checked_runs st.runs) refl refl h

  -- Every item of a map is sound.
  abbrev AllSound : Map (ItemState F) → Type 0
  AllSound m = (j : Bytes) (st : ItemState F) → Map.get j m ≡ some st → IsSound st

  cons-AllSound :
      (name : Bytes) (x : ItemState F) (m : Map (ItemState F))
      → IsSound x
      → AllSound m
      → AllSound ((name, x) ∷ m)
  unfolding Map.get
  cons-AllSound name x m s a = λ j st h. elim (Bool-cases (eq_bytes name j)) [
    | inl b ↦ (let e : x ≡ st = ground (arith, b, h) in subst (λ y. IsSound y) e s)
    | inr b ↦ (let e : Map.get j m ≡ some st = ground (arith, b, h) in a j st e)
  ]

  if-AllSound :
      (b : Bool) (m n : Map (ItemState F)) → AllSound m → AllSound n → AllSound (if b then m else n)
  if-AllSound true m n p q = p
  if-AllSound false m n p q = q

  add_item-AllSound :
      (name : Bytes) (o : Option (ItemState F)) (rest : Option (Map (ItemState F)))
      (m : Map (ItemState F))
      → ((x : ItemState F) → o ≡ some x → IsSound x)
      → ((n : Map (ItemState F)) → rest ≡ some n → AllSound n)
      → add_item fl name o rest ≡ some m
      → AllSound m
  add_item-AllSound name none rest m s a h = absurd (ground arith)
  add_item-AllSound name (some x) none m s a h = absurd (ground arith)
  add_item-AllSound name (some x) (some n) m s a h =
      let e : (if is_idle x then n else (name, x) ∷ n) ≡ m = cc in
      subst (λ y. AllSound y) e
        (if-AllSound (is_idle x) n ((name, x) ∷ n) (a n refl)
          (cons-AllSound name x n (s x refl) (a n refl)))

  load_items-AllSound :
      (l : Map (Option (FileItem F))) (m : Map (ItemState F))
      → load_items fl l ≡ some m
      → AllSound m
  unfolding load_items Map.get
  load_items-AllSound [] m h = λ j st g.
      let e : [] ≡ m = cc in
      let g' : Map.get j [] ≡ some st = ap (λ x. Map.get j x) e ∙ g in absurd (ground (arith, g'))
  load_items-AllSound ((name, o) ∷ l) m h =
      add_item-AllSound name (load_some fl o) (load_items fl l) m (load_some-IsSound o)
        (load_items-AllSound l) h

  load-AllSound :
      (o : Option (StateFile F)) (m : Map (ItemState F)) → load fl o ≡ some m → AllSound m
  load-AllSound none m h = absurd (ground arith)
  load-AllSound (some sf) m h = elim (Bool-cases (eq_ℤ sf.version state_version)) [
    | inl b ↦
        (let e : load_items fl sf.items ≡ some m = ground (arith, b, h) in
          load_items-AllSound sf.items m e)
    | inr b ↦ absurd (ground (arith, b, h))
  ]

  AllSound-IsWell : (e : Evaluator F) → AllSound e.items → IsWell e
  AllSound-IsWell e a = record {
    sound = λ j. elim (Option-cases (Map.get j e.items)) [
      | inl h ↦
          (let q : fresh ≡ state_of j e = ground (arith, h) in subst (λ t. IsSound t) q (tt, tt))
      | inr (st, h) ↦
          (let q : st ≡ state_of j e = ground (arith, h) in subst (λ t. IsSound t) q (a j st h))
    ];
  }

  defaults-IsWell : IsWell (defaults fl)
  unfolding Map.get
  defaults-IsWell = AllSound-IsWell (defaults fl) (λ j st h. absurd (ground arith))

  loaded-IsWell :
      (b : Bytes) (o : Option (Map (ItemState F)))
      → ((m : Map (ItemState F)) → o ≡ some m → AllSound m)
      → IsWell (loaded fl b o).0
  loaded-IsWell b none a = defaults-IsWell
  loaded-IsWell b (some m) a =
      AllSound-IsWell (record { items = m; saved = b; save_err = none }) (a m refl)

  pub from_file-IsWell :
      (unmarshal : Bytes → Option (StateFile F)) (file : FileRead fl)
      → IsWell (from_file fl unmarshal file).0
  from_file-IsWell unmarshal absent = defaults-IsWell
  from_file-IsWell unmarshal unreadable = defaults-IsWell
  from_file-IsWell unmarshal (holds b) =
      loaded-IsWell b (load fl (unmarshal b)) (load-AllSound (unmarshal b))
