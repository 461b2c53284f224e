-- ===== src/Utils/File/Prefix.antt =====
-- `CommonPrefix` of utils/file/file.go. `clean` is `path.Clean`.
use casa_os_common.Common.{
  ℕ, ◌≡◌, refl, sym, ◌∙◌, arith, Option, none, some, List, [], ◌∷◌, ◌++◌, ◌==◌, inl, inr,
  Bool-cases, if◌then◌else◌, Bytes,
}
use mathlib.Core.Path.{subst}

-- The bytes at the front that two strings share: the cut to the length of `v`, and at the first byte
-- that differs.
unfoldable pub cut_common : Bytes → Bytes → Bytes
cut_common [] v = []
cut_common (a ∷ c) [] = []
cut_common (a ∷ c) (b ∷ v) = let rest = cut_common c v in if b == a then a ∷ rest else []

module _ (sep : ℕ) where
  -- A byte in front of a string, by what is before the last separator of that.
  abbrev front : ℕ → Option Bytes → Option Bytes
  front c (some r) = some (c ∷ r)
  front c none = if c == sep then some [] else none

  -- What is before the last separator, none where there is none.
  unfoldable pub before_last : Bytes → Option Bytes
  before_last [] = none
  before_last (c ∷ s) = front c (before_last s)

  -- The last loop: without a separator nothing is removed.
  abbrev pub or_whole : Bytes → Option Bytes → Bytes
  or_whole c none = c
  or_whole c (some r) = r

module _ (clean : Bytes → Bytes) (sep : ℕ) where
  -- A path of the list, cleaned, with the separator behind it.
  abbrev pub closed : Bytes → Bytes
  closed p = clean p ++ sep ∷ []

  -- The loop over the other paths.
  unfoldable pub cut_all : Bytes → List Bytes → Bytes
  cut_all c [] = c
  cut_all c (v ∷ vs) = cut_all (cut_common c (closed v)) vs

  -- `CommonPrefix`
  unfoldable pub common_prefix : List Bytes → Bytes
  common_prefix [] = []
  common_prefix (p ∷ []) = clean p
  common_prefix (p ∷ q ∷ ps) =
      let c = cut_all (closed p) (q ∷ ps) in or_whole sep c (before_last sep c)

-- One string begins another.
abbrev pub Prefix : Bytes → Bytes → Type 0
Prefix [] t = Unit
Prefix (a ∷ s) [] = ⊥
Prefix (a ∷ s) (b ∷ t) = (a ≡ b) × Prefix s t

Prefix_refl : (s : Bytes) → Prefix s s
Prefix_refl [] = tt
Prefix_refl (a ∷ s) = (refl, Prefix_refl s)

Prefix_trans : (s t u : Bytes) → Prefix s t → Prefix t u → Prefix s u
Prefix_trans [] t u h k = tt
Prefix_trans (a ∷ s) (b ∷ t) (c ∷ u) (e, h) (e', k) = (e ∙ e', Prefix_trans s t u h k)
Prefix_trans (a ∷ s) [] u h k = absurd h
Prefix_trans (a ∷ s) (b ∷ t) [] h k = absurd k

cut_common_left : (c v : Bytes) → Prefix (cut_common c v) c
unfolding cut_common
cut_common_left [] v = tt
cut_common_left (a ∷ c) [] = tt
cut_common_left (a ∷ c) (b ∷ v) = ground (arith, cut_common_left c v)

cut_common_right : (c v : Bytes) → Prefix (cut_common c v) v
unfolding cut_common
cut_common_right [] v = tt
cut_common_right (a ∷ c) [] = tt
cut_common_right (a ∷ c) (b ∷ v) = ground (arith, cut_common_right c v)

cut_common_greatest : (d c v : Bytes) → Prefix d c → Prefix d v → Prefix d (cut_common c v)
unfolding cut_common
cut_common_greatest [] c v h k = tt
cut_common_greatest (x ∷ d) (a ∷ c) (b ∷ v) (e, h) (e', k) =
    ground (arith, e, e', cut_common_greatest d c v h k)
cut_common_greatest (x ∷ d) [] v h k = absurd h
cut_common_greatest (x ∷ d) (a ∷ c) [] h k = absurd k

-- A path ends with a separator that stands in `c`.
module _ (sep : ℕ) where
  -- The last separator ends the longest such front.
  abbrev IsLast : Bytes → Option Bytes → Type 0
  IsLast c none = (d : Bytes) → Prefix (d ++ sep ∷ []) c → ⊥
  IsLast c (some r) =
      Prefix (r ++ sep ∷ []) c
      × ((d : Bytes) → Prefix (d ++ sep ∷ []) c → Prefix (d ++ sep ∷ []) (r ++ sep ∷ []))

  front_some-IsLast :
      (c : ℕ) (s r d : Bytes)
      → ((d : Bytes) → Prefix (d ++ sep ∷ []) s → Prefix (d ++ sep ∷ []) (r ++ sep ∷ []))
      → Prefix (d ++ sep ∷ []) (c ∷ s)
      → Prefix (d ++ sep ∷ []) (c ∷ r ++ sep ∷ [])
  front_some-IsLast c s r [] g (e, k) = (e, tt)
  front_some-IsLast c s r (x ∷ d) g (e, k) = (e, g d k)

  front_none-IsLast :
      (c : ℕ) (s d : Bytes) → IsLast s none → Prefix (d ++ sep ∷ []) (c ∷ s) → (d ≡ []) × (sep ≡ c)
  front_none-IsLast c s [] n (e, k) = (refl, e)
  front_none-IsLast c s (x ∷ d) n (e, k) = absurd (n d k)

  front-IsLast :
      (c : ℕ) (s : Bytes) (o : Option Bytes) → IsLast s o → IsLast (c ∷ s) (front sep c o)
  front-IsLast c s (some r) (h, g) = ((refl, h), λ d k. front_some-IsLast c s r d g k)
  front-IsLast c s none n = elim (Bool-cases (c == sep)) [
    | inl b ↦
        (let e : sep ≡ c = ground (arith, b) in
          subst (λ x. IsLast (c ∷ s) (if x then some [] else none)) (sym b)
            (
              (e, tt),
              λ d k.
                  subst (λ y. Prefix (y ++ sep ∷ []) (sep ∷ []))
                    (sym (front_none-IsLast c s d n k).0) (Prefix_refl (sep ∷ [])),
            ))
    | inr b ↦
        subst (λ x. IsLast (c ∷ s) (if x then some [] else none)) (sym b)
          (λ d k. let e = (front_none-IsLast c s d n k).1 in ground (arith, b, e))
  ]

  before_last-IsLast : (c : Bytes) → IsLast c (before_last sep c)
  unfolding before_last
  before_last-IsLast [] = λ d h. not_front d h
    where
      not_front : (d : Bytes) → Prefix (d ++ sep ∷ []) [] → ⊥
      not_front [] h = h
      not_front (x ∷ d) h = h
  before_last-IsLast (c ∷ s) = front-IsLast c s (before_last sep s) (before_last-IsLast s)

  or_whole-IsLast :
      (c : Bytes) (o : Option Bytes)
      → Prefix (sep ∷ []) c
      → IsLast c o
      → IsLast c (some (or_whole sep c o))
  or_whole-IsLast c none h n = absurd (n [] h)
  or_whole-IsLast c (some r) h n = n

module _ (clean : Bytes → Bytes) (sep : ℕ) where
  -- A directory that lies above all paths of a list, or is one of them.
  abbrev pub IsAbove : Bytes → List Bytes → Type 0
  IsAbove d [] = Unit
  IsAbove d (p ∷ ps) = Prefix (d ++ sep ∷ []) (closed clean sep p) × IsAbove d ps

  -- Every path begins with the separator once it is cleaned.
  abbrev pub AllRooted : List Bytes → Type 0
  AllRooted [] = Unit
  AllRooted (p ∷ ps) = Prefix (sep ∷ []) (clean p) × AllRooted ps

  -- It lies above the paths, and so does no deeper one.
  abbrev pub IsDeepest : Bytes → List Bytes → Type 0
  IsDeepest r ps =
      IsAbove r ps × ((d : Bytes) → IsAbove d ps → Prefix (d ++ sep ∷ []) (r ++ sep ∷ []))

  cut_all_left : (c : Bytes) (vs : List Bytes) → Prefix (cut_all clean sep c vs) c
  unfolding cut_all
  cut_all_left c [] = Prefix_refl c
  cut_all_left c (v ∷ vs) =
      let d = cut_common c (closed clean sep v) in
      Prefix_trans (cut_all clean sep d vs) d c (cut_all_left d vs)
        (cut_common_left c (closed clean sep v))

  IsAbove-cut_all :
      (d c : Bytes) (vs : List Bytes)
      → Prefix (d ++ sep ∷ []) (cut_all clean sep c vs)
      → IsAbove d vs
  unfolding cut_all
  IsAbove-cut_all d c [] h = tt
  IsAbove-cut_all d c (v ∷ vs) h =
      let e = cut_common c (closed clean sep v) in
      (
        Prefix_trans (d ++ sep ∷ []) e (closed clean sep v)
            (Prefix_trans (d ++ sep ∷ []) (cut_all clean sep e vs) e h (cut_all_left e vs))
            (cut_common_right c (closed clean sep v)),
        IsAbove-cut_all d e vs h,
      )

  cut_all_greatest :
      (d c : Bytes) (vs : List Bytes)
      → Prefix (d ++ sep ∷ []) c
      → IsAbove d vs
      → Prefix (d ++ sep ∷ []) (cut_all clean sep c vs)
  unfolding cut_all
  cut_all_greatest d c [] h a = h
  cut_all_greatest d c (v ∷ vs) h (k, a) =
      cut_all_greatest d (cut_common c (closed clean sep v)) vs
        (cut_common_greatest (d ++ sep ∷ []) c (closed clean sep v) h k) a

  rooted_closed : (s : Bytes) → Prefix (sep ∷ []) s → Prefix (sep ∷ []) (s ++ sep ∷ [])
  rooted_closed [] h = absurd h
  rooted_closed (c ∷ s) (e, h) = (e, tt)

  AllRooted-IsAbove : (ps : List Bytes) → AllRooted ps → IsAbove [] ps
  AllRooted-IsAbove [] h = tt
  AllRooted-IsAbove (p ∷ ps) (h, k) = (rooted_closed (clean p) h, AllRooted-IsAbove ps k)

  -- Where the cleaned paths begin with the separator, CommonPrefix gives the deepest directory that
  -- lies above all of them, or is one of them: with the separator behind it, it begins each path that
  -- is closed by one, and so does nothing that is longer.
  pub common_prefix-IsDeepest :
      (p : Bytes) (ps : List Bytes)
      → AllRooted (p ∷ ps)
      → IsDeepest (common_prefix clean sep (p ∷ ps)) (p ∷ ps)
  unfolding common_prefix
  common_prefix-IsDeepest p [] h = ((Prefix_refl (closed clean sep p), tt), λ d a. a.0)
  common_prefix-IsDeepest p (q ∷ ps) h =
      let c = cut_all clean sep (closed clean sep p) (q ∷ ps) in
      let top = AllRooted-IsAbove (p ∷ q ∷ ps) h in
      let rooted = cut_all_greatest [] (closed clean sep p) (q ∷ ps) top.0 top.1 in
      let (below, deepest) =
        or_whole-IsLast sep c (before_last sep c) rooted (before_last-IsLast sep c) in
      let r = or_whole sep c (before_last sep c) in
      (
        (
          Prefix_trans (r ++ sep ∷ []) c (closed clean sep p) below
              (cut_all_left (closed clean sep p) (q ∷ ps)),
          IsAbove-cut_all r (closed clean sep p) (q ∷ ps) below,
        ),
        λ d a. deepest d (cut_all_greatest d (closed clean sep p) (q ∷ ps) a.0 a.1),
      )
