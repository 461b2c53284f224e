-- ===== src/Stats/Store/Counts.antt =====
-- The number of live items (`entry` of pkg/stats/store.go) when an entry or the map changes.
use casa_os_common.Common.{
  ℕ, zero, suc, ◌≤◌, ◌<◌, ◌≡◌, refl, sym, ◌≢◌, arith, true, none, List, [], ◌∷◌, ◌++◌, length, set,
  get_elem?-set_ne, Bytes,
}
use native.Mathlib.Decide.{ℕ_discrete}
use casa_os_common.Common.Map
use casa_os_common.Common.Map.{Map}
use casa_os_common.Stats.Store.Rings.{Rings}
use casa_os_common.Stats.Store.Entry.{Entry}
use casa_os_common.Stats.Store.State.{alive_at, count_live}

-- No item has this index.
abbrev pub NotIndex : ℕ → Map ℕ → Type 0
NotIndex i [] = Unit
NotIndex i ((k, j) ∷ m) = (j ≢ i) × NotIndex i m

-- No two items have the same name or the same index.
abbrev pub Apart : Map ℕ → Type 0
Apart [] = Unit
Apart ((k, i) ∷ m) = (Map.get k m ≡ none) × NotIndex i m × Apart m

pub NotIndex-del : (i : ℕ) (k : Bytes) (m : Map ℕ) → NotIndex i m → NotIndex i (Map.del k m)
unfolding Map.del
NotIndex-del i k [] n = tt
NotIndex-del i k ((j, l) ∷ m) (n, ns) = ground (arith, NotIndex-del i k m ns)

module _ {F R : Type 0} (rs : Rings F R) where
  -- A heap with no more live entries.
  pub count_live_mono :
      (h g : List (Entry F R)) (m : Map ℕ)
      → ((j : ℕ) → alive_at rs h j ≡ true → alive_at rs g j ≡ true)
      → count_live rs h m ≤ count_live rs g m
  unfolding count_live
  count_live_mono h g [] f = omega arith
  count_live_mono h g ((k, i) ∷ m) f = ground (arith, f i, count_live_mono h g m f)

  pub count_live-same :
      (h g : List (Entry F R)) (m : Map ℕ)
      → ((j : ℕ) → alive_at rs h j ≡ alive_at rs g j)
      → count_live rs h m ≡ count_live rs g m
  unfolding count_live
  count_live-same h g [] f = refl
  count_live-same h g ((k, i) ∷ m) f = ground (arith, f i, count_live-same h g m f)

  pub count_live-del :
      (h : List (Entry F R)) (k : Bytes) (m : Map ℕ)
      → count_live rs h (Map.del k m) ≤ count_live rs h m
  unfolding count_live Map.del
  count_live-del h k [] = omega arith
  count_live-del h k ((j, i) ∷ m) = ground (arith, count_live-del h k m)

  pub count_live-put_new :
      (h : List (Entry F R)) (k : Bytes) (i : ℕ) (m : Map ℕ)
      → Map.get k m ≡ none
      → count_live rs h (Map.put k i m) ≤ suc (count_live rs h m)
  unfolding count_live Map.put Map.get
  count_live-put_new h k i [] n = ground arith
  count_live-put_new h k i ((j, l) ∷ m) n = ground (arith, count_live-put_new h k i m)

  pub alive_at-set :
      (h : List (Entry F R)) (i : ℕ) (e : Entry F R) (j : ℕ)
      → j ≢ i
      → alive_at rs (set h i e) j ≡ alive_at rs h j
  alive_at-set h i e j ne = ground (arith, get_elem?-set_ne h {i = i} {j = j} e (λ p. ne (sym p)))

  pub count_live-set_other :
      (h : List (Entry F R)) (i : ℕ) (e : Entry F R) (m : Map ℕ)
      → NotIndex i m
      → count_live rs (set h i e) m ≡ count_live rs h m
  unfolding count_live
  count_live-set_other h i e [] n = refl
  count_live-set_other h i e ((k, j) ∷ m) (n, ns) =
      ground (arith, alive_at-set h i e j n, count_live-set_other h i e m ns)

  -- At most one item has the index.
  pub count_live-set_le :
      (h : List (Entry F R)) (i : ℕ) (e : Entry F R) (m : Map ℕ)
      → Apart m
      → count_live rs (set h i e) m ≤ suc (count_live rs h m)
  unfolding count_live
  count_live-set_le h i e [] a = omega arith
  count_live-set_le h i e ((k, j) ∷ m) (n, ns, a) = elim (ℕ_discrete j i) [
    | yes p ↦ (let o = count_live-set_other h i e m (rw (sym p) ns) in ground (arith, o))
    | no p ↦ ground (arith, alive_at-set h i e j p, count_live-set_le h i e m a)
  ]

  pub alive_at-push :
      (h : List (Entry F R)) (e : Entry F R) (j : ℕ)
      → j < length h
      → alive_at rs (h ++ e ∷ []) j ≡ alive_at rs h j
  alive_at-push [] e j l = absurd (omega arith)
  alive_at-push (x ∷ h) e zero l = refl
  alive_at-push (x ∷ h) e (suc j) l = alive_at-push h e j (omega arith)
