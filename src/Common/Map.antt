-- ===== src/Common/Map.antt =====
-- Go maps with string keys as association lists; a missing key gives `none`.
use casa_os_common.Common.{
  Option, none, some, List, [], ◌∷◌, ◌≡◌, refl, arith, if◌then◌else◌, Bytes, eq_bytes, eq_bytes_iff,
}

abbrev pub Map {ℓ} : Type ℓ → Type ℓ
Map V = List (Bytes × V)

module _ {ℓ} {V : Type ℓ} where
  -- `m[k]`
  unfoldable pub get : Bytes → Map V → Option V
  get k [] = none
  get k ((j, v) ∷ m) = if eq_bytes j k then some v else get k m

  -- `m[k] = v`
  unfoldable pub put : Bytes → V → Map V → Map V
  put k v [] = (k, v) ∷ []
  put k v ((j, w) ∷ m) = if eq_bytes j k then (k, v) ∷ m else (j, w) ∷ put k v m

  -- `delete(m, k)`
  unfoldable pub del : Bytes → Map V → Map V
  del k [] = []
  del k ((j, w) ∷ m) = let rest = del k m in if eq_bytes j k then rest else (j, w) ∷ rest

  pub get-put :
      (k j : Bytes) (v : V) (m : Map V)
      → get j (put k v m) ≡ (if eq_bytes k j then some v else get j m)
  unfolding get put
  get-put k j v [] = refl
  get-put k j v ((i, w) ∷ m) =
      ground (arith, eq_bytes_iff k j, eq_bytes_iff i k, eq_bytes_iff i j, get-put k j v m)

  pub get-del :
      (k j : Bytes) (m : Map V) → get j (del k m) ≡ (if eq_bytes k j then none else get j m)
  unfolding get del
  get-del k j [] = ground arith
  get-del k j ((i, w) ∷ m) =
      ground (arith, eq_bytes_iff k j, eq_bytes_iff i k, eq_bytes_iff i j, get-del k j m)
