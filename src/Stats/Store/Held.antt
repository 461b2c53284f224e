-- ===== src/Stats/Store/Held.antt =====
-- The entries that the items of a store point to (pkg/stats/store.go) are in the heap and not removed.
use casa_os_common.Common.{
  ℕ, zero, suc, ◌<◌, ◌≡◌, refl, sym, ◌≢◌, arith, Bool, true, false, none, some, List, [], ◌∷◌,
  length, get_elem?, set, get_elem?-set_ne, Bytes, eq_bytes, eq_bytes_iff, inl, inr, Bool-cases,
}
use mathlib.Core.Path.{subst}
use casa_os_common.Common.Map
use casa_os_common.Common.Map.{Map}
use casa_os_common.Stats.Store.Entry.{Entry}
use casa_os_common.Stats.Store.Counts.{NotIndex, Apart, NotIndex-del}

pub Apart-del : (k : Bytes) (m : Map ℕ) → Apart m → Apart (Map.del k m)
unfolding Map.del
Apart-del k [] a = tt
Apart-del k ((j, i) ∷ m) (n, ns, a) =
    ground (arith, Apart-del k m a, NotIndex-del i k m ns, Map.get-del k j m, eq_bytes_iff k j)

NotIndex-put : (i j : ℕ) (k : Bytes) (m : Map ℕ) → j ≢ i → NotIndex i m → NotIndex i (Map.put k j m)
unfolding Map.put
NotIndex-put i j k [] ne n = (ne, tt)
NotIndex-put i j k ((l, o) ∷ m) ne (n, ns) = ground (arith, NotIndex-put i j k m ne ns)

pub Apart-put :
    (k : Bytes) (i : ℕ) (m : Map ℕ)
    → Map.get k m ≡ none
    → NotIndex i m
    → Apart m
    → Apart (Map.put k i m)
unfolding Map.put Map.get
Apart-put k i [] g n a = (refl, tt, tt)
Apart-put k i ((l, o) ∷ m) g (n, ns) (h, hs, a) = ground (
  arith,
  Apart-put k i m,
  NotIndex-put o i k m (λ e. n (sym e)) hs,
  Map.get-put k l i m,
  eq_bytes_iff k l,
  eq_bytes_iff l k,
)

get_of_NotIndex : (k : Bytes) (i o : ℕ) (m : Map ℕ) → NotIndex o m → Map.get k m ≡ some i → i ≢ o
unfolding Map.get
get_of_NotIndex k i o [] n g e = ground arith
get_of_NotIndex k i o ((j, l) ∷ m) (n, ns) g e = ground (arith, get_of_NotIndex k i o m ns)

-- The index of a removed item is that of no other.
pub NotIndex-del_self :
    (k : Bytes) (i : ℕ) (m : Map ℕ) → Apart m → Map.get k m ≡ some i → NotIndex i (Map.del k m)
unfolding Map.del Map.get
NotIndex-del_self k i [] a g = tt
NotIndex-del_self k i ((l, o) ∷ m) (n, ns, a) g = elim (Bool-cases (eq_bytes l k)) [
  | inl e ↦
      (let q : o ≡ i = ground (arith, e) in
        rw e (NotIndex-del i k m (subst (λ x. NotIndex x m) q ns)))
  | inr e ↦
      (let g' : Map.get k m ≡ some i = ground (arith, e) in
        rw e (λ q. get_of_NotIndex k i o m ns g' (sym q), NotIndex-del_self k i m a g'))
]

module _ {F R : Type 0} where
  abbrev pub gone_at : List (Entry F R) → ℕ → Bool
  gone_at heap i = elim (get_elem? heap i) [ none ↦ true | some e ↦ e.is_gone ]

  abbrev pub Held : List (Entry F R) → Map ℕ → Type 0
  Held heap [] = Unit
  Held heap ((k, i) ∷ m) = (gone_at heap i ≡ false) × Held heap m

  pub Held-map :
      (h g : List (Entry F R)) (m : Map ℕ)
      → ((j : ℕ) → gone_at h j ≡ false → gone_at g j ≡ false)
      → Held h m
      → Held g m
  Held-map h g [] f a = tt
  Held-map h g ((k, i) ∷ m) f (a, as') = (f i a, Held-map h g m f as')

  pub Held-set_other :
      (h : List (Entry F R)) (i : ℕ) (e : Entry F R) (m : Map ℕ)
      → NotIndex i m
      → Held h m
      → Held (set h i e) m
  Held-set_other h i e [] n a = tt
  Held-set_other h i e ((k, j) ∷ m) (n, ns) (a, b) = (
    ground (arith, get_elem?-set_ne h {i = i} {j = j} e (λ p. n (sym p))),
    Held-set_other h i e m ns b,
  )

  pub Held-del : (h : List (Entry F R)) (k : Bytes) (m : Map ℕ) → Held h m → Held h (Map.del k m)
  unfolding Map.del
  Held-del h k [] a = tt
  Held-del h k ((j, i) ∷ m) (a, b) = ground (arith, Held-del h k m b)

  pub Held-put :
      (h : List (Entry F R)) (k : Bytes) (i : ℕ) (m : Map ℕ)
      → gone_at h i ≡ false
      → Held h m
      → Held h (Map.put k i m)
  unfolding Map.put
  Held-put h k i [] g a = (g, tt)
  Held-put h k i ((j, l) ∷ m) g (a, b) = ground (arith, Held-put h k i m g b)

  pub gone_at-get :
      (h : List (Entry F R)) (k : Bytes) (i : ℕ) (m : Map ℕ)
      → Held h m
      → Map.get k m ≡ some i
      → gone_at h i ≡ false
  unfolding Map.get
  gone_at-get h k i [] a g = ground arith
  gone_at-get h k i ((j, l) ∷ m) (a, b) g = ground (arith, gone_at-get h k i m b)

  pub length_of_gone : (h : List (Entry F R)) (i : ℕ) → gone_at h i ≡ false → i < length h
  length_of_gone [] i g = ground arith
  length_of_gone (x ∷ h) zero g = omega arith
  length_of_gone (x ∷ h) (suc i) g = omega (arith, length_of_gone h i g)

  -- The index past the heap is free.
  pub NotIndex-length : (h : List (Entry F R)) (m : Map ℕ) → Held h m → NotIndex (length h) m
  NotIndex-length h [] a = tt
  NotIndex-length h ((k, i) ∷ m) (a, b) =
      (λ e. (let l = length_of_gone h i a in omega arith), NotIndex-length h m b)
