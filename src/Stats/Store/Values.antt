-- ===== src/Stats/Store/Values.antt =====
-- What `clean` of pkg/stats/store.go lets through, and what its loop over the clean values leaves in the
-- pending minute.
use casa_os_common.Common.{
  ℕ, suc, ◌+◌, ◌≤◌, ◌<◌, ◌≡◌, refl, arith, true, ◌||◌, List, [], ◌∷◌, length, if◌then◌else◌, ltb,
  leb, leb_false→lt, Bytes, eq_bytes, eq_bytes_iff, inl, inr, Bool-cases, Option-cases, sym, ap,
}
use mathlib.Core.Path.{subst}
use casa_os_common.Common.Map
use casa_os_common.Common.Map.{Map}
use casa_os_common.Stats.Limits.{max_key_len, max_series}
use casa_os_common.Stats.Errors.{Errs}
use casa_os_common.Stats.Floats.{Floats}
use casa_os_common.Stats.Rules.{contains}
use casa_os_common.Stats.Store.Sample.{
  Agg, Verdict, bad_length, no_value, over_cap, known, new, has_key, count_new, judge_key,
  more_series, keep_value, clean_keys, clean, sort_keys, add_value, add_sample,
}

-- Putting in a key adds one series at most, and none for a key that is there or known.
count_new-put :
    {F : Type 0} (names : List Bytes) (k : Bytes) (a : Agg F) (acc : Map (Agg F))
    → count_new names (Map.put k a acc) ≤ (
        if has_key k acc || contains names k
        then count_new names acc
        else suc (count_new names acc))
unfolding count_new Map.put Map.get
count_new-put names k a [] = ground arith
count_new-put names k a ((j, b) ∷ acc) = elim (Bool-cases (eq_bytes j k)) [
  | inl e ↦
      (let q : contains names j ≡ contains names k =
          ap (λ x. contains names x) ((eq_bytes_iff j k).0 e) in
        ground (arith, e, q))
  | inr e ↦ ground (arith, e, count_new-put names k a acc)
]

has_key-put :
    {F : Type 0} (k j : Bytes) (a : Agg F) (acc : Map (Agg F))
    → has_key k acc ≡ true
    → has_key k (Map.put j a acc) ≡ true
has_key-put k j a acc h = ground (arith, Map.get-put j k a acc)

module _ {F : Type 0} (fl : Floats F) where
  count_new-add_value :
      (names : List Bytes) (k : Bytes) (v : F) (acc : Map (Agg F))
      → count_new names (add_value fl k v acc) ≤ (
          if has_key k acc || contains names k
          then count_new names acc
          else suc (count_new names acc))
  unfolding add_value
  count_new-add_value names k v acc = elim (Option-cases (Map.get k acc)) [
    | inl h ↦
        (let b = count_new-put names k (record { sum = v; low = v; high = v; count = 1 }) acc in
          ground (arith, h, b))
    | inr (a, h) ↦
        (let b =
            count_new-put names k
              (record {
                sum = fl.add a.sum v;
                low = fl.fmin a.low v;
                high = fl.fmax a.high v;
                count = a.count + 1;
              })
              acc in
          ground (arith, h, b))
  ]

  has_key-add_value :
      (k j : Bytes) (v : F) (acc : Map (Agg F))
      → has_key k acc ≡ true
      → has_key k (add_value fl j v acc) ≡ true
  unfolding add_value
  has_key-add_value k j v acc h = elim (Option-cases (Map.get j acc)) [
    | inl g ↦
        ground (arith, g, has_key-put k j (record { sum = v; low = v; high = v; count = 1 }) acc h)
    | inr (a, g) ↦
        (let b =
            has_key-put k j
              (record {
                sum = fl.add a.sum v;
                low = fl.fmin a.low v;
                high = fl.fmax a.high v;
                count = a.count + 1;
              })
              acc h in
          ground (arith, g, b))
  ]

  -- A key of 1 to 63 bytes and a value that a ring can hold.
  abbrev pub IsGood : Bytes → F → Type 0
  IsGood k v = (1 ≤ length k) × (length k ≤ max_key_len) × (fl.fits32 v ≡ true)

  -- What the tests on a key tell, by their verdict.
  abbrev Tells : List Bytes → Map (Agg F) → ℕ → Bytes → F → Verdict → Type 0
  Tells names acc n k v known = IsGood k v × (has_key k acc || contains names k ≡ true)
  Tells names acc n k v new = IsGood k v × (n < max_series)
  Tells names acc n k v _ = Unit

  judge_key-Tells :
      (names : List Bytes) (acc : Map (Agg F)) (n : ℕ) (k : Bytes) (v : F)
      → Tells names acc n k v (judge_key fl names acc n k v)
  unfolding judge_key
  judge_key-Tells names acc n k v =
      elim (Bool-cases (ltb (length k) 1 || ltb max_key_len (length k))) [
        | inl a ↦ simp (judge_key, a) tt
        | inr a ↦ elim (Bool-cases (fl.fits32 v)) [
          | inr b ↦ simp (judge_key, a, b) tt
          | inl b ↦
              (let good : IsGood k v = ground (arith, a, b) in
                elim (Bool-cases (has_key k acc || contains names k)) [
                  | inl c ↦
                      (let e : judge_key fl names acc n k v ≡ known =
                          simp (judge_key, a, b, c) refl in
                        subst (λ x. Tells names acc n k v x) (sym e) (good, c))
                  | inr c ↦ elim (Bool-cases (leb max_series n)) [
                    | inl d ↦ simp (judge_key, a, b, c, d) tt
                    | inr d ↦
                        (let e : judge_key fl names acc n k v ≡ new =
                            simp (judge_key, a, b, c, d) refl in
                          subst (λ x. Tells names acc n k v x) (sym e)
                            (good, leb_false→lt max_series n d))
                  ]
                ])
        ]
      ]

  -- One key, by its verdict; `rest` is the theorem for the keys after it.
  count_new-step :
      (names : List Bytes) (acc now : Map (Agg F)) (n : ℕ) (k : Bytes) (v : F) (smp : Map F)
      (j : Verdict)
      → n ≤ max_series
      → length names + count_new names now ≤ n
      → ((i : Bytes) → has_key i acc ≡ true → has_key i now ≡ true)
      → ((m : ℕ) (later : Map (Agg F))
          → m ≤ max_series
          → length names + count_new names later ≤ m
          → ((i : Bytes) → has_key i acc ≡ true → has_key i later ≡ true)
          → length names + count_new names (add_sample fl (clean_keys fl names acc m smp).0 later)
            ≤ max_series)
      → Tells names acc n k v j
      → length names
          + count_new names (
              add_sample fl
                (keep_value fl j k v (clean_keys fl names acc (more_series fl j n) smp)).0
                now)
        ≤ max_series
  unfolding add_sample
  count_new-step names acc now n k v smp bad_length small room grow rest t =
      rest n now small room grow
  count_new-step names acc now n k v smp no_value small room grow rest t =
      rest n now small room grow
  count_new-step names acc now n k v smp over_cap small room grow rest t =
      rest n now small room grow
  count_new-step names acc now n k v smp known small room grow rest (good, t) =
      let b = count_new-add_value names k v now in
      rest n (add_value fl k v now) small (ground (arith, grow k, b))
        (λ i h. has_key-add_value i k v now (grow i h))
  count_new-step names acc now n k v smp new small room grow rest (good, t) =
      let b = count_new-add_value names k v now in
      rest (suc n) (add_value fl k v now) (omega arith) (ground (arith, b))
        (λ i h. has_key-add_value i k v now (grow i h))

  -- The loop over the clean keys, where `now` is the pending minute so far and `acc` what it was.
  count_new-clean_keys :
      (names : List Bytes) (acc now : Map (Agg F)) (n : ℕ) (smp : Map F)
      → n ≤ max_series
      → length names + count_new names now ≤ n
      → ((k : Bytes) → has_key k acc ≡ true → has_key k now ≡ true)
      → length names + count_new names (add_sample fl (clean_keys fl names acc n smp).0 now)
        ≤ max_series
  unfolding clean_keys add_sample
  count_new-clean_keys names acc now n [] small room grow = omega arith
  count_new-clean_keys names acc now n ((k, v) ∷ smp) small room grow =
      count_new-step names acc now n k v smp (judge_key fl names acc n k v) small room grow
        (λ m later. count_new-clean_keys names acc later m smp) (judge_key-Tells names acc n k v)

  -- Where the series of the ring and the other keys of the pending minute are at most 48, they are still
  -- when the values of a sample that clean lets through have been added.
  pub add_sample-clean :
      (names : List Bytes) (acc : Map (Agg F)) (smp : Map F)
      → length names + count_new names acc ≤ max_series
      → length names + count_new names (add_sample fl (clean fl names acc smp).0 acc) ≤ max_series
  unfolding clean
  add_sample-clean names acc smp room =
      count_new-clean_keys names acc acc (length names + count_new names acc) (sort_keys smp) room
        (omega arith) (λ k h. h)

  abbrev pub AllGood : Map F → Type 0
  AllGood [] = Unit
  AllGood ((k, v) ∷ m) = IsGood k v × AllGood m

  AllGood-keep_value :
      (names : List Bytes) (acc : Map (Agg F)) (n : ℕ) (k : Bytes) (v : F) (p : Map F × Errs)
      (j : Verdict)
      → Tells names acc n k v j
      → AllGood p.0
      → AllGood (keep_value fl j k v p).0
  AllGood-keep_value names acc n k v p bad_length t a = a
  AllGood-keep_value names acc n k v p no_value t a = a
  AllGood-keep_value names acc n k v p over_cap t a = a
  AllGood-keep_value names acc n k v p known (good, t) a = (good, a)
  AllGood-keep_value names acc n k v p new (good, t) a = (good, a)

  AllGood-clean_keys :
      (names : List Bytes) (acc : Map (Agg F)) (n : ℕ) (smp : Map F)
      → AllGood (clean_keys fl names acc n smp).0
  unfolding clean_keys
  AllGood-clean_keys names acc n [] = tt
  AllGood-clean_keys names acc n ((k, v) ∷ smp) =
      let j = judge_key fl names acc n k v in
      let m = more_series fl j n in
      AllGood-keep_value names acc n k v (clean_keys fl names acc m smp) j
        (judge_key-Tells names acc n k v) (AllGood-clean_keys names acc m smp)

  pub AllGood-clean :
      (names : List Bytes) (acc : Map (Agg F)) (smp : Map F) → AllGood (clean fl names acc smp).0
  unfolding clean
  AllGood-clean names acc smp =
      AllGood-clean_keys names acc (length names + count_new names acc) (sort_keys smp)
