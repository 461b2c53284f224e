-- ===== src/Stats/Query/Buckets.antt =====
-- `buckets` of pkg/stats/query.go against the minutes of each bucket.
use casa_os_common.Common.{
  ℕ, zero, suc, ◌+◌, ◌*◌, ◌/◌, ◌≡◌, ◌≢◌, refl, arith, true, false, Option, none, some, List, [],
  ◌∷◌, length, ◌==◌, if◌then◌else◌, take, drop, ◌∙◌, ap, inl, inr, ◌⊎◌, ◌≤◌,
}
use mathlib.Core.Path.{subst}
use casa_os_common.Common.Int.{ℤ, pos, ◌+ℤ◌}
use casa_os_common.Stats.Floats.{Floats}
use casa_os_common.Stats.Ring.Write.{MinuteValue}
use casa_os_common.Stats.Ring.Window.{Cell}
use casa_os_common.Stats.Query.{
  Point, Fold, no_cells, add_cell, fold_cells, point_value, buckets_from, buckets,
}

module _ {F : Type 0} (fl : Floats F) where
  -- The minutes that are there.
  abbrev pub present : List (Cell fl) → List (MinuteValue F)
  present [] = []
  present (none ∷ cs) = present cs
  present (some c ∷ cs) = c ∷ present cs

  -- No minimum or maximum is a NaN, as `readWindow` sees to.
  abbrev pub AllNumbers : List (Cell fl) → Type 0
  AllNumbers [] = Unit
  AllNumbers (none ∷ cs) = AllNumbers cs
  AllNumbers (some c ∷ cs) =
      ((fl.is_nan c.low ≡ false) × (fl.is_nan c.high ≡ false)) × AllNumbers cs

  abbrev pub added : F → List (MinuteValue F) → F
  added s [] = s
  added s (c ∷ cs) = added (fl.add s c.avg) cs

  abbrev pub AllWithin : F → F → List (MinuteValue F) → Type 0
  AllWithin low high [] = Unit
  AllWithin low high (c ∷ cs) =
      ((fl.le low c.low ≡ true) × (fl.le c.high high ≡ true)) × AllWithin low high cs

  -- One of the minutes has that minimum, or that maximum.
  abbrev pub HasLow : F → List (MinuteValue F) → Type 0
  HasLow v [] = ⊥
  HasLow v (c ∷ cs) = (v ≡ c.low) ⊎ HasLow v cs

  abbrev pub HasHigh : F → List (MinuteValue F) → Type 0
  HasHigh v [] = ⊥
  HasHigh v (c ∷ cs) = (v ≡ c.high) ⊎ HasHigh v cs

  -- A gap for no minute; else the sum of the averages through their number, the least minimum and the
  -- greatest maximum.
  abbrev pub IsSummary : List (MinuteValue F) → Option (MinuteValue F) → Type 0
  IsSummary cs none = cs ≡ []
  IsSummary cs (some v) =
      (cs ≢ [])
      × (v.avg ≡ fl.div (added (fl.of_ℕ 0) cs) (length cs))
      × AllWithin v.low v.high cs
      × HasLow v.low cs
      × HasHigh v.high cs

  -- What a fold over more cells keeps.
  record Extends (a : Fold F) (cs : List (MinuteValue F)) (b : Fold F) : Type 0 where
    count : b.count ≡ a.count + length cs
    sum : b.sum ≡ added a.sum cs
    low : a.count ≢ 0 → fl.le b.low a.low ≡ true
    high : a.count ≢ 0 → fl.le a.high b.high ≡ true
    within : AllWithin b.low b.high cs
    has_low : a.count ≢ 0 → (b.low ≡ a.low) ⊎ HasLow b.low cs
    has_high : a.count ≢ 0 → (b.high ≡ a.high) ⊎ HasHigh b.high cs
    new_low : a.count ≡ 0 → cs ≢ [] → HasLow b.low cs
    new_high : a.count ≡ 0 → cs ≢ [] → HasHigh b.high cs

  abbrev IsNumber : Fold F → Type 0
  IsNumber a = a.count ≢ 0 → (fl.is_nan a.low ≡ false) × (fl.is_nan a.high ≡ false)

  -- The limits that a cell is compared with.
  abbrev low_before : MinuteValue F → Fold F → F
  low_before c a = if a.count == 0 then c.low else a.low

  abbrev high_before : MinuteValue F → Fold F → F
  high_before c a = if a.count == 0 then c.high else a.high

  -- A limit is the one before it, or that of the new minute or of a later one.
  keep_or_new :
      {P : Type 0} {before old new now last : F}
      → before ≡ old
      → (now ≡ before) ⊎ (now ≡ new)
      → (last ≡ now) ⊎ P
      → (last ≡ old) ⊎ ((last ≡ new) ⊎ P)
  keep_or_new r (inl e) (inl f) = inl (f ∙ e ∙ r)
  keep_or_new r (inr e) (inl f) = inr (inl (f ∙ e))
  keep_or_new r e (inr p) = inr (inr p)

  only_new : {P : Type 0} {last new : F} → (last ≡ new) ⊎ ((last ≡ new) ⊎ P) → (last ≡ new) ⊎ P
  only_new (inl e) = inl e
  only_new (inr e) = e

  fold_cells-Extends :
      (cs : List (Cell fl)) (a : Fold F)
      → AllNumbers cs
      → IsNumber a
      → Extends a (present cs) (fold_cells fl cs a)
  unfolding fold_cells
  fold_cells-Extends [] a n h = record {
    count = omega arith;
    sum = refl;
    low = λ z. fl.le_refl a.low (h z).0;
    high = λ z. fl.le_refl a.high (h z).1;
    within = tt;
    has_low = λ z. inl refl;
    has_high = λ z. inl refl;
    new_low = λ z w. absurd (w refl);
    new_high = λ z w. absurd (w refl);
  }
  fold_cells-Extends (none ∷ cs) a n h = fold_cells-Extends cs a n h
  fold_cells-Extends (some c ∷ cs) a ((l, u), n) h =
      let p : fl.is_nan (low_before c a) ≡ false = ground arith in
      let q : fl.is_nan (high_before c a) ≡ false = ground arith in
      let (x, y) = fl.fmin-le (low_before c a) c.low p l in
      let (v, w) = fl.le-fmax (high_before c a) c.high q u in
      let b = add_cell fl (some c) a in
      let some_b : b.count ≢ 0 = λ z. omega arith in
      let e = fold_cells-Extends cs b n (λ z.
        (fl.fmin-is_nan (low_before c a) c.low p l, fl.fmax-is_nan (high_before c a) c.high q u)) in
      let f = fold_cells fl cs b in
      record {
        count = (let k = e.count in omega arith);
        sum = e.sum;
        low = λ z.
            (let r : low_before c a ≡ a.low = ground arith in
              fl.le_trans f.low b.low a.low (e.low some_b) (subst (λ t. fl.le b.low t ≡ true) r x));
        high = λ z.
            (let r : high_before c a ≡ a.high = ground arith in
              fl.le_trans a.high b.high f.high (subst (λ t. fl.le t b.high ≡ true) r v)
                (e.high some_b));
        within = (
          (
            fl.le_trans f.low b.low c.low (e.low some_b) y,
            fl.le_trans c.high b.high f.high w (e.high some_b),
          ),
          e.within,
        );
        has_low = λ z.
            (let r : low_before c a ≡ a.low = ground arith in
              keep_or_new r (fl.fmin-either (low_before c a) c.low p l) (e.has_low some_b));
        has_high = λ z.
            (let r : high_before c a ≡ a.high = ground arith in
              keep_or_new r (fl.fmax-either (high_before c a) c.high q u) (e.has_high some_b));
        new_low = λ z w.
            (let r : low_before c a ≡ c.low = ground arith in
              only_new
                (keep_or_new r (fl.fmin-either (low_before c a) c.low p l) (e.has_low some_b)));
        new_high = λ z w.
            (let r : high_before c a ≡ c.high = ground arith in
              only_new
                (keep_or_new r (fl.fmax-either (high_before c a) c.high q u) (e.has_high some_b)));
      }

  summary :
      (cs : List (MinuteValue F)) (b : Fold F)
      → Extends (no_cells fl) cs b
      → IsSummary cs (point_value fl b)
  summary [] b e = (let k = e.count in ground arith)
  summary (c ∷ cs) b e =
      let k : b.count ≡ suc (length cs) = omega (arith, e.count) in
      let some_b : b.count == 0 ≡ false = ground arith in
      simp (some_b) (
        (λ z. ground arith),
        ap (λ x. fl.div x b.count) e.sum ∙ ap (fl.div (added (fl.of_ℕ 0) (c ∷ cs))) k,
        e.within,
        e.new_low refl (λ z. ground arith),
        e.new_high refl (λ z. ground arith),
      )

  fold_cells-IsSummary :
      (cs : List (Cell fl))
      → AllNumbers cs
      → IsSummary (present cs) (point_value fl (fold_cells fl cs (no_cells fl)))
  fold_cells-IsSummary cs n =
      summary (present cs) (fold_cells fl cs (no_cells fl))
        (fold_cells-Extends cs (no_cells fl) n (λ z. absurd (z refl)))

  AllNumbers-take : (n : ℕ) (cs : List (Cell fl)) → AllNumbers cs → AllNumbers (take n cs)
  AllNumbers-take zero cs a = tt
  AllNumbers-take (suc n) [] a = tt
  AllNumbers-take (suc n) (none ∷ cs) a = AllNumbers-take n cs a
  AllNumbers-take (suc n) (some c ∷ cs) (l, a) = (l, AllNumbers-take n cs a)

  AllNumbers-drop : (n : ℕ) (cs : List (Cell fl)) → AllNumbers cs → AllNumbers (drop n cs)
  AllNumbers-drop zero cs a = a
  AllNumbers-drop (suc n) [] a = tt
  AllNumbers-drop (suc n) (none ∷ cs) a = AllNumbers-drop n cs a
  AllNumbers-drop (suc n) (some c ∷ cs) (l, a) = AllNumbers-drop n cs a

  -- Points from number `i` on, each `step` seconds after the one before, each the summary of its minutes.
  abbrev pub AllSummaries : List (Cell fl) → ℤ → ℕ → ℕ → List (Point F) → Type 0
  AllSummaries cells from step i [] = Unit
  AllSummaries cells from step i (p ∷ ps) =
      (p.t ≡ from +ℤ pos (i * step))
      × IsSummary (present (take (step / 60) (drop (i * (step / 60)) cells))) p.value
      × AllSummaries cells from step (suc i) ps

  buckets_from-AllSummaries :
      (cells : List (Cell fl)) (from : ℤ) (step n i : ℕ)
      → AllNumbers cells
      → (length (buckets_from fl cells from step n i) ≡ n)
        × AllSummaries cells from step i (buckets_from fl cells from step n i)
  unfolding buckets_from
  buckets_from-AllSummaries cells from step zero i a = (refl, tt)
  buckets_from-AllSummaries cells from step (suc n) i a =
      let (l, r) = buckets_from-AllSummaries cells from step n (suc i) a in
      let per = step / 60 in
      let slice = take per (drop (i * per) cells) in
      let b = AllNumbers-take per (drop (i * per) cells) (AllNumbers-drop (i * per) cells a) in
      (ap suc l, (refl, fold_cells-IsSummary slice b, r))

  -- Where no minimum or maximum of the minutes is a NaN, and the list has a minute or a gap for each minute
  -- of the points, buckets does not panic and gives the asked number of points, from the start on and one step apart; a point
  -- is a gap exactly when its bucket has no minute, and else holds the sum of the averages of its minutes
  -- through their number, the least of their minimums and the greatest of their maximums.
  pub buckets-AllSummaries :
      (cells : List (Cell fl)) (from : ℤ) (step n : ℕ)
      → AllNumbers cells
      → n * (step / 60) ≤ length cells
      → (ps : List (Point F)) × (buckets fl cells from step n ≡ some ps)
        × (length ps ≡ n)
        × AllSummaries cells from step 0 ps
  buckets-AllSummaries cells from step n a enough =
      let (l, r) = buckets_from-AllSummaries cells from step n 0 a in
      (buckets_from fl cells from step n 0, ground (arith, enough), l, r)
