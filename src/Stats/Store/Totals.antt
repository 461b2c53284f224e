-- ===== src/Stats/Store/Totals.antt =====
-- The pending minute (`agg` of pkg/stats/store.go) sums up the values it has got.
use casa_os_common.Common.{
  suc, ◌+◌, ◌≡◌, refl, arith, true, false, Option, none, some, List, [], ◌∷◌, length, if◌then◌else◌,
  Bytes, eq_bytes, eq_bytes_iff, ap, sym, inl, inr, Bool-cases, Option-cases,
}
use mathlib.Core.Path.{subst}
use casa_os_common.Common.Map
use casa_os_common.Common.Map.{Map}
use casa_os_common.Stats.Floats.{Floats}
use casa_os_common.Stats.Store.Sample.{Agg, add_value, add_sample}
use casa_os_common.Stats.Store.Values.{AllGood}

module _ {F : Type 0} (fl : Floats F) where
  -- The values of one key among those before, the latest first.
  abbrev pub gathered : Bytes → Map F → List F → List F
  gathered k [] vs = vs
  gathered k ((j, v) ∷ smp) vs = gathered k smp (if eq_bytes j k then v ∷ vs else vs)

  -- The values added up in the order of their samples.
  abbrev pub total : F → List F → F
  total v [] = v
  total v (w ∷ vs) = fl.add (total w vs) v

  abbrev pub AllBetween : F → F → List F → Type 0
  AllBetween low high [] = Unit
  AllBetween low high (v ∷ vs) =
      ((fl.le low v ≡ true) × (fl.le v high ≡ true)) × AllBetween low high vs

  -- A sum counts and adds the values, and its limits bound each and are numbers.
  abbrev pub IsSum : List F → Option (Agg F) → Type 0
  IsSum [] none = Unit
  IsSum (v ∷ vs) none = ⊥
  IsSum [] (some a) = ⊥
  IsSum (v ∷ vs) (some a) =
      (a.count ≡ suc (length vs))
      × (a.sum ≡ total v vs)
      × AllBetween a.low a.high (v ∷ vs)
      × (fl.is_nan a.low ≡ false)
      × (fl.is_nan a.high ≡ false)

  AllBetween-wider :
      (l h l' h' : F) (vs : List F)
      → fl.le l' l ≡ true
      → fl.le h h' ≡ true
      → AllBetween l h vs
      → AllBetween l' h' vs
  AllBetween-wider l h l' h' [] p q a = tt
  AllBetween-wider l h l' h' (v ∷ vs) p q ((a, b), c) =
      ((fl.le_trans l' l v p a, fl.le_trans v h h' b q), AllBetween-wider l h l' h' vs p q c)

  -- The sum of one key with one more value.
  abbrev grown : F → Option (Agg F) → Agg F
  grown v none = record { sum = v; low = v; high = v; count = 1 }
  grown v (some a) = record {
    sum = fl.add a.sum v;
    low = fl.fmin a.low v;
    high = fl.fmax a.high v;
    count = a.count + 1;
  }

  get-add_value :
      (k i : Bytes) (v : F) (acc : Map (Agg F))
      → Map.get i (add_value fl k v acc)
        ≡ (if eq_bytes k i then some (grown v (Map.get k acc)) else Map.get i acc)
  unfolding add_value
  get-add_value k i v acc = elim (Option-cases (Map.get k acc)) [
    | inl h ↦ simp (add_value, h) (Map.get-put k i (grown v none) acc)
    | inr (a, h) ↦ simp (add_value, h) (Map.get-put k i (grown v (some a)) acc)
  ]

  grown-IsSum :
      (v : F) (vs : List F) (o : Option (Agg F))
      → fl.fits32 v ≡ true
      → IsSum vs o
      → IsSum (v ∷ vs) (some (grown v o))
  grown-IsSum v [] none f s =
      let n = fl.is_nan_of_fits32 v f in let r = fl.le_refl v n in (refl, refl, ((r, r), tt), n, n)
  grown-IsSum v (w ∷ vs) (some a) f (c, t, b, l, h) =
      let n = fl.is_nan_of_fits32 v f in
      let (p, q) = fl.fmin-le a.low v l n in
      let (x, y) = fl.le-fmax a.high v h n in
      (
        omega arith,
        ap (λ z. fl.add z v) t,
        ((q, y), AllBetween-wider a.low a.high (fl.fmin a.low v) (fl.fmax a.high v) (w ∷ vs) p x b),
        fl.fmin-is_nan a.low v l n,
        fl.fmax-is_nan a.high v h n,
      )
  grown-IsSum v [] (some a) f s = absurd s
  grown-IsSum v (w ∷ vs) none f s = absurd s

  -- Where the pending minute sums up the values before of a key, and a sample has clean values, it does
  -- so with those of the sample: it counts and adds them in order, and its minimum and maximum are numbers
  -- that bound each.
  pub add_sample-IsSum :
      (k : Bytes) (smp : Map F) (acc : Map (Agg F)) (vs : List F)
      → AllGood fl smp
      → IsSum vs (Map.get k acc)
      → IsSum (gathered k smp vs) (Map.get k (add_sample fl smp acc))
  unfolding add_sample
  add_sample-IsSum k [] acc vs g s = s
  add_sample-IsSum k ((j, v) ∷ smp) acc vs ((a, b, f), g) s =
      let q = get-add_value j k v acc in
      elim (Bool-cases (eq_bytes j k)) [
        | inl e ↦
            (let same : Map.get j acc ≡ Map.get k acc =
                ap (λ x. Map.get x acc) ((eq_bytes_iff j k).0 e) in
              let z : Map.get k (add_value fl j v acc) ≡ some (grown v (Map.get k acc)) =
                ground (arith, q, e, same) in
              let ih =
                add_sample-IsSum k smp (add_value fl j v acc) (v ∷ vs) g
                  (subst (λ x. IsSum (v ∷ vs) x) (sym z) (grown-IsSum v vs (Map.get k acc) f s)) in
              subst
                (λ b.
                  IsSum (gathered k smp (if b then v ∷ vs else vs))
                    (Map.get k (add_sample fl smp (add_value fl j v acc))))
                (sym e) ih)
        | inr e ↦
            (let z : Map.get k (add_value fl j v acc) ≡ Map.get k acc = ground (arith, q, e) in
              let ih =
                add_sample-IsSum k smp (add_value fl j v acc) vs g
                  (subst (λ x. IsSum vs x) (sym z) s) in
              subst
                (λ b.
                  IsSum (gathered k smp (if b then v ∷ vs else vs))
                    (Map.get k (add_sample fl smp (add_value fl j v acc))))
                (sym e) ih)
      ]
