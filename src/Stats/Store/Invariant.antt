-- ===== src/Stats/Store/Invariant.antt =====
-- What holds of a store (pkg/stats/store.go) between two calls.
use casa_os_common.Common.{
  ℕ, zero, suc, ◌≤◌, ◌<◌, ◌≡◌, refl, sym, ◌∙◌, ap, arith, true, false, none, some, List, [], ◌∷◌,
  ◌++◌, length, get_elem?, set, get_elem?-set_self, get_elem?-set_ne, Bytes, inl, inr, Bool-cases,
  Option-cases, leb, leb_false→lt,
}
use casa_os_common.Stats.Rules.{contains}
use native.Mathlib.Decide.{ℕ_discrete}
use casa_os_common.Common.Int.{pos}
use casa_os_common.Common.Map
use casa_os_common.Common.Map.{Map}
use casa_os_common.Stats.Limits.{max_items}
use casa_os_common.Stats.Errors.{Result, Result-cases}
use casa_os_common.Stats.Floats.{Floats}
use casa_os_common.Stats.Store.Rings.{Rings}
use casa_os_common.Stats.Store.Entry.{Entry, new_entry}
use casa_os_common.Stats.Store.State.{
  Store, is_alive, alive_at, count_live, find, set_entry, entry_of,
}
use casa_os_common.Stats.Store.Counts.{
  Apart, count_live_mono, count_live-put_new, count_live-set_le, alive_at-set, alive_at-push,
}
use casa_os_common.Stats.Store.Held.{
  Apart-put, gone_at, Held, Held-map, Held-put, gone_at-get, length_of_gone, NotIndex-length,
}

module _ {F R : Type 0} (rs : Rings F R) where
  -- At most 256 items are live; names and entries belong together one to one; no item points to a
  -- removed entry.
  pub record WellAt (heap : List (Entry F R)) (items : Map ℕ) : Type 0 where
    pub cap : count_live rs heap items ≤ max_items
    pub apart : Apart items
    pub held : Held heap items

  abbrev pub IsWell : Store F R → Type 0
  IsWell s = WellAt s.heap s.items

  pub length_of_some :
      (h : List (Entry F R)) (i : ℕ) (e : Entry F R) → get_elem? h i ≡ some e → i < length h
  length_of_some [] i e g = ground arith
  length_of_some (x ∷ h) zero e g = omega arith
  length_of_some (x ∷ h) (suc i) e g = omega (arith, length_of_some h i e g)

  module _ (h : List (Entry F R)) (i : ℕ) (e e' : Entry F R) (found : get_elem? h i ≡ some e) where
    pub gone_at-set : e'.is_gone ≡ e.is_gone → (j : ℕ) → gone_at (set h i e') j ≡ gone_at h j
    gone_at-set same j = elim (ℕ_discrete j i) [
      | yes p ↦ ground (arith, found, p, get_elem?-set_self h i e' (length_of_some h i e found))
      | no p ↦ ground (arith, get_elem?-set_ne h {i = i} {j = j} e' (λ q. p (sym q)))
    ]

    alive_at-set_less :
        (is_alive rs e' ≡ true → is_alive rs e ≡ true)
        → (j : ℕ) → alive_at rs (set h i e') j ≡ true
        → alive_at rs h j ≡ true
    alive_at-set_less less j a = elim (ℕ_discrete j i) [
      | yes p ↦
          (let z : alive_at rs (set h i e') i ≡ is_alive rs e' =
              ground (arith, get_elem?-set_self h i e' (length_of_some h i e found)) in
            let y : alive_at rs h i ≡ is_alive rs e = ground (arith, found) in
            ap (λ x. alive_at rs h x) p
            ∙ y
            ∙ less (sym z ∙ sym (ap (λ x. alive_at rs (set h i e') x) p) ∙ a))
      | no p ↦ sym (alive_at-set rs h i e' j p) ∙ a
    ]

  -- An entry of the heap may change in all but its mark and its end; it may also stop to be live.
  pub set_entry-IsWell_less :
      (i : ℕ) (e e' : Entry F R) (s : Store F R)
      → IsWell s
      → get_elem? s.heap i ≡ some e
      → (is_alive rs e' ≡ true → is_alive rs e ≡ true)
      → e'.is_gone ≡ e.is_gone
      → IsWell (set_entry i e' s)
  set_entry-IsWell_less i e e' s w found less same =
      let c =
        count_live_mono rs (set s.heap i e') s.heap s.items
          (alive_at-set_less s.heap i e e' found less) in
      let b = w.cap in
      record {
        cap = omega arith;
        apart = w.apart;
        held =
            Held-map s.heap (set s.heap i e') s.items
              (λ j g. gone_at-set s.heap i e e' found same j ∙ g) w.held;
      }

  pub set_entry-IsWell :
      (i : ℕ) (e e' : Entry F R) (s : Store F R)
      → IsWell s
      → get_elem? s.heap i ≡ some e
      → is_alive rs e' ≡ is_alive rs e
      → e'.is_gone ≡ e.is_gone
      → IsWell (set_entry i e' s)
  set_entry-IsWell i e e' s w found alive same =
      set_entry-IsWell_less i e e' s w found (λ a. sym alive ∙ a) same

  -- Where there is room for one more, it may change its mark too.
  pub set_entry-IsWell_mark :
      (i : ℕ) (e e' : Entry F R) (s : Store F R)
      → IsWell s
      → get_elem? s.heap i ≡ some e
      → count_live rs s.heap s.items < max_items
      → e'.is_gone ≡ e.is_gone
      → IsWell (set_entry i e' s)
  set_entry-IsWell_mark i e e' s w found room same = record {
    cap = omega (arith, count_live-set_le rs s.heap i e' s.items w.apart);
    apart = w.apart;
    held =
        Held-map s.heap (set s.heap i e') s.items
          (λ j g. gone_at-set s.heap i e e' found same j ∙ g) w.held;
  }

  -- `s.items[name]` is an entry of the heap.
  pub find-some :
      (name : Bytes) (s : Store F R) (i : ℕ) (e : Entry F R)
      → find name s ≡ some (i, e)
      → (Map.get name s.items ≡ some i) × (get_elem? s.heap i ≡ some e)
  unfolding find
  find-some name s i e h = ground arith

  module _ (h : List (Entry F R)) (e : Entry F R) where
    pub get_elem?-push_self : (h : List (Entry F R)) → get_elem? (h ++ e ∷ []) (length h) ≡ some e
    get_elem?-push_self [] = refl
    get_elem?-push_self (x ∷ h) = get_elem?-push_self h

    gone_at-push :
        (h : List (Entry F R)) (j : ℕ) → gone_at h j ≡ false → gone_at (h ++ e ∷ []) j ≡ false
    gone_at-push [] j g = ground arith
    gone_at-push (x ∷ h) zero g = g
    gone_at-push (x ∷ h) (suc j) g = gone_at-push h j g

    count_live-push :
        (h : List (Entry F R)) (m : Map ℕ)
        → Held h m
        → count_live rs (h ++ e ∷ []) m ≡ count_live rs h m
    unfolding count_live
    count_live-push h [] a = refl
    count_live-push h ((k, i) ∷ m) (a, b) =
        ground (arith, alive_at-push rs h e i (length_of_gone h i a), count_live-push h m b)

  -- A new entry under a name without one, where there is room.
  pub push-IsWell :
      (name : Bytes) (e : Entry F R) (s : Store F R)
      → IsWell s
      → Map.get name s.items ≡ none
      → e.is_gone ≡ false
      → count_live rs s.heap s.items < max_items
      → IsWell (record s { heap = s.heap ++ e ∷ []; items = Map.put name (length s.heap) s.items })
  push-IsWell name e s w absent here room =
      let g = s.heap ++ e ∷ [] in
      let i = length s.heap in
      record {
        cap =
            (let a = count_live-put_new rs g name i s.items absent in
              let b = count_live-push s.heap e s.heap s.items w.held in omega arith);
        apart = Apart-put name i s.items absent (NotIndex-length s.heap s.items w.held) w.apart;
        held =
            Held-put g name i s.items (let q = get_elem?-push_self s.heap e s.heap in ground arith)
              (Held-map s.heap g s.items (gone_at-push s.heap e s.heap) w.held);
      }

  -- Without an entry, a name is not in the map.
  pub find-none :
      (name : Bytes) (s : Store F R) → IsWell s → find name s ≡ none → Map.get name s.items ≡ none
  unfolding find
  find-none name s w h = elim (Option-cases (Map.get name s.items)) [
    | inl n ↦ n
    | inr (i, p) ↦ (let g = gone_at-get s.heap name i s.items w.held p in ground arith)
  ]

module _ {F R : Type 0} (fl : Floats F) (rs : Rings F R) (base : Bytes → Bytes) where
  pub entry_of-IsWell :
      (created : Result R) (name : Bytes) (s : Store F R)
      → IsWell rs s
      → IsWell rs (entry_of fl rs base created name s).1
  unfolding entry_of
  entry_of-IsWell created name s w =
      let n = count_live rs s.heap s.items in
      elim (Bool-cases s.closed) [
        | inl c ↦ simp (c) w
        | inr c ↦ elim (Option-cases (find name s)) [
          | inl f ↦ elim (Bool-cases (leb max_items n)) [
            | inl b ↦ simp (c, f, b) w
            | inr b ↦ elim (Bool-cases (contains s.refused (base name))) [
              | inl r ↦ simp (c, f, b, r) w
              | inr r ↦ elim (Result-cases created) [
                | inl (o, q) ↦
                    (simp (c, f, b, r, q)
                      (push-IsWell rs name (new_entry fl rs o) s w (find-none rs name s w f) refl
                        (leb_false→lt max_items n b)))
                | inr (x, q) ↦ simp (c, f, b, r, q) w
              ]
            ]
          ]
          | inr ((i, e), f) ↦ elim (Bool-cases (is_alive rs e)) [
            | inl a ↦ simp (c, f, a) w
            | inr a ↦ elim (Bool-cases (leb max_items n)) [
              | inl b ↦ simp (c, f, a, b) w
              | inr b ↦
                  (simp (c, f, a, b)
                    (set_entry-IsWell_mark rs i e
                      (record e { ring = (rs.set_forgotten (pos 0) e.ring).1 }) s w
                      (find-some rs name s i e f).1 (leb_false→lt max_items n b) refl))
            ]
          ]
        ]
      ]
