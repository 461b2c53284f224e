-- ===== src/Stats/Evaluator/Alerts.antt =====
-- Lists of active alerts with distinct keys (`Active` of `itemState` in pkg/stats/evaluator.go), seen
-- through the search for a key.
use casa_os_common.Common.{
  ◌≡◌, refl, ◌∙◌, ◌≢◌, arith, Bool, true, false, none, some, List, [], ◌∷◌, ◌++◌, if◌then◌else◌,
  Bytes, eq_bytes, lt_bytes, eq_bytes_iff,
}
use casa_os_common.Stats.Evaluator.Item.{Alert, find_alert, remove_alert, insert_alert, sort_alerts}

module _ {F : Type 0} where
  -- No two alerts have the same key.
  abbrev pub Distinct : List (Alert F) → Type 0
  Distinct [] = Unit
  Distinct (a ∷ l) = (find_alert a.key l ≡ none) × Distinct l

  pub Distinct-if :
      (c : Bool) (l m : List (Alert F)) → Distinct l → Distinct m → Distinct (if c then l else m)
  Distinct-if true l m d e = d
  Distinct-if false l m d e = e

  pub find-remove_same :
      (k : Bytes) (l : List (Alert F)) → Distinct l → find_alert k (remove_alert k l) ≡ none
  unfolding find_alert remove_alert
  find-remove_same k [] d = refl
  find-remove_same k (a ∷ l) (n, d) = ground (arith, eq_bytes_iff a.key k, find-remove_same k l d)

  pub find-remove_other :
      (j k : Bytes) (l : List (Alert F)) → j ≢ k → find_alert k (remove_alert j l) ≡ find_alert k l
  unfolding find_alert remove_alert
  find-remove_other j k [] ne = refl
  find-remove_other j k (a ∷ l) ne =
      ground (arith, eq_bytes_iff a.key j, eq_bytes_iff a.key k, find-remove_other j k l ne)

  pub find-snoc :
      (k : Bytes) (a : Alert F) (l : List (Alert F))
      → find_alert a.key l ≡ none
      → find_alert k (l ++ a ∷ []) ≡ (if eq_bytes a.key k then some a else find_alert k l)
  unfolding find_alert
  find-snoc k a [] n = refl
  find-snoc k a (b ∷ l) n =
      ground (
        arith,
        eq_bytes_iff a.key k,
        eq_bytes_iff b.key k,
        eq_bytes_iff b.key a.key,
        find-snoc k a l,
      )

  find-insert :
      (k : Bytes) (a : Alert F) (l : List (Alert F))
      → find_alert a.key l ≡ none
      → find_alert k (insert_alert a l) ≡ (if eq_bytes a.key k then some a else find_alert k l)
  unfolding find_alert insert_alert
  find-insert k a [] n = refl
  find-insert k a (b ∷ l) n = ground (
    arith,
    eq_bytes_iff a.key k,
    eq_bytes_iff b.key k,
    eq_bytes_iff b.key a.key,
    find-insert k a l,
  )

  pub find-sort :
      (k : Bytes) (l : List (Alert F)) → Distinct l → find_alert k (sort_alerts l) ≡ find_alert k l
  unfolding find_alert sort_alerts
  find-sort k [] d = refl
  find-sort k (a ∷ l) (n, d) =
      ground (arith, find-insert k a (sort_alerts l), find-sort a.key l d, find-sort k l d)

  pub Distinct-snoc :
      (a : Alert F) (l : List (Alert F))
      → find_alert a.key l ≡ none
      → Distinct l
      → Distinct (l ++ a ∷ [])
  unfolding find_alert
  Distinct-snoc a [] n d = (refl, tt)
  Distinct-snoc a (b ∷ l) n (m, d) = (
    ground (arith, eq_bytes_iff b.key a.key, eq_bytes_iff a.key b.key, find-snoc b.key a l),
    Distinct-snoc a l (ground arith) d,
  )

  Distinct-insert :
      (a : Alert F) (l : List (Alert F))
      → find_alert a.key l ≡ none
      → Distinct l
      → Distinct (insert_alert a l)
  unfolding find_alert insert_alert
  Distinct-insert a [] n d = (refl, tt)
  Distinct-insert a (b ∷ l) n (m, d) =
      Distinct-if (lt_bytes a.key b.key) (a ∷ b ∷ l) (b ∷ insert_alert a l) (n, (m, d))
        (
          ground (arith, eq_bytes_iff b.key a.key, eq_bytes_iff a.key b.key, find-insert b.key a l),
          Distinct-insert a l (ground arith) d,
        )

  pub Distinct-sort : (l : List (Alert F)) → Distinct l → Distinct (sort_alerts l)
  unfolding sort_alerts
  Distinct-sort [] d = tt
  Distinct-sort (a ∷ l) (n, d) =
      Distinct-insert a (sort_alerts l) (ground (arith, find-sort a.key l d)) (Distinct-sort l d)

  find-remove_none :
      (j k : Bytes) (l : List (Alert F))
      → find_alert k l ≡ none
      → find_alert k (remove_alert j l) ≡ none
  unfolding find_alert remove_alert
  find-remove_none j k [] n = refl
  find-remove_none j k (a ∷ l) n = ground (arith, find-remove_none j k l)

  pub Distinct-remove : (k : Bytes) (l : List (Alert F)) → Distinct l → Distinct (remove_alert k l)
  unfolding remove_alert
  Distinct-remove k [] d = tt
  Distinct-remove k (a ∷ l) (n, d) =
      Distinct-if (eq_bytes a.key k) l (a ∷ remove_alert k l) d
        (find-remove_none k a.key l n, Distinct-remove k l d)

  pub remove_none : (k : Bytes) (l : List (Alert F)) → find_alert k l ≡ none → remove_alert k l ≡ l
  unfolding find_alert remove_alert
  remove_none k [] n = refl
  remove_none k (a ∷ l) n = ground (arith, remove_none k l)

  -- The list after `fire`.
  pub find-fired :
      (k : Bytes) (a : Alert F) (l : List (Alert F))
      → find_alert a.key l ≡ none
      → Distinct l
      → find_alert k (sort_alerts (l ++ a ∷ []))
        ≡ (if eq_bytes a.key k then some a else find_alert k l)
  find-fired k a l n d = find-sort k (l ++ a ∷ []) (Distinct-snoc a l n d) ∙ find-snoc k a l n

  pub Distinct-fired :
      (a : Alert F) (l : List (Alert F))
      → find_alert a.key l ≡ none
      → Distinct l
      → Distinct (sort_alerts (l ++ a ∷ []))
  Distinct-fired a l n d = Distinct-sort (l ++ a ∷ []) (Distinct-snoc a l n d)
