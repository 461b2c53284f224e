-- ===== src/Stats/Rules/Valid.antt =====
-- `validateRules` of pkg/stats/rules.go accepts exactly the valid lists.
use casa_os_common.Common.{
  ℕ, suc, ◌≡◌, refl, ◌≢◌, ◌↔◌, ◌⊎◌, arith, true, false, none, List, [], ◌∷◌, ◌++◌, Bytes, eq_bytes,
  eq_bytes_iff,
}
use casa_os_common.Common.Int.{pos, ◌≤ℤ◌}
use casa_os_common.Stats.Floats.{Floats}
use casa_os_common.Stats.Rules.{
  Rule, cpu_high, mem_high, rule_keys, contains, rule_fault, validate_from, validate_rules,
}

abbrev pub Absent : Bytes → List Bytes → Type 0
Absent k [] = Unit
Absent k (x ∷ xs) = (x ≢ k) × Absent k xs

ne_of_false : (x k : Bytes) → eq_bytes x k ≡ false → x ≢ k
ne_of_false x k p q = cc ((eq_bytes_iff x k).1 q)

contains-Absent : (k : Bytes) (xs : List Bytes) → contains xs k ≡ false → Absent k xs
unfolding contains
contains-Absent k [] p = tt
contains-Absent k (x ∷ xs) p = (ne_of_false x k (ground arith), contains-Absent k xs (ground arith))

Absent-contains : (k : Bytes) (xs : List Bytes) → Absent k xs → contains xs k ≡ false
unfolding contains
Absent-contains k [] p = refl
Absent-contains k (x ∷ xs) p = ground (arith, eq_bytes_iff x k, Absent-contains k xs p.1)

rule_key_iff : (k : Bytes) → (contains rule_keys k ≡ true) ↔ ((k ≡ cpu_high) ⊎ (k ≡ mem_high))
unfolding contains
rule_key_iff k = ground (arith, eq_bytes_iff cpu_high k, eq_bytes_iff mem_high k)

module _ {F : Type 0} (fl : Floats F) where
  -- A known key, a threshold from 1 to 100 and 1 to 120 minutes.
  pub record Fits (r : Rule F) : Type 0 where
    pub known : (r.key ≡ cpu_high) ⊎ (r.key ≡ mem_high)
    pub threshold_low : fl.le (fl.of_ℕ 1) r.threshold ≡ true
    pub threshold_high : fl.le r.threshold (fl.of_ℕ 100) ≡ true
    pub minutes_low : pos 1 ≤ℤ r.minutes
    pub minutes_high : r.minutes ≤ℤ pos 120

  -- Each rule fits, and its key is not that of a rule before it.
  abbrev pub AllValid : List Bytes → List (Rule F) → Type 0
  AllValid seen [] = Unit
  AllValid seen (r ∷ rs) = Fits r × Absent r.key seen × AllValid (seen ++ r.key ∷ []) rs

  rule_fault-Fits :
      (seen : List Bytes) (r : Rule F) → rule_fault fl seen r ≡ none → Fits r × Absent r.key seen
  unfolding rule_fault
  rule_fault-Fits seen r h =
      let k = rule_key_iff r.key in
      (
        record {
          known = ground (arith, k);
          threshold_low = ground arith;
          threshold_high = ground arith;
          minutes_low = ground arith;
          minutes_high = ground arith;
        },
        contains-Absent r.key seen (ground arith),
      )

  Fits-rule_fault :
      (seen : List Bytes) (r : Rule F) → Fits r × Absent r.key seen → rule_fault fl seen r ≡ none
  unfolding rule_fault
  Fits-rule_fault seen r (f, a) =
      let k = (rule_key_iff r.key).1 f.known in
      let c = Absent-contains r.key seen a in
      let l = f.threshold_low in
      let h = f.threshold_high in let m = f.minutes_low in let n = f.minutes_high in ground arith

  validate_from-AllValid :
      (i : ℕ) (seen : List Bytes) (rs : List (Rule F))
      → validate_from fl i seen rs ≡ none
      → AllValid seen rs
  unfolding validate_from
  validate_from-AllValid i seen [] h = tt
  validate_from-AllValid i seen (r ∷ rs) h =
      let (f, a) = rule_fault-Fits seen r (ground arith) in
      (f, a, validate_from-AllValid (suc i) (seen ++ r.key ∷ []) rs (ground arith))

  AllValid-validate_from :
      (i : ℕ) (seen : List Bytes) (rs : List (Rule F))
      → AllValid seen rs
      → validate_from fl i seen rs ≡ none
  unfolding validate_from
  AllValid-validate_from i seen [] v = refl
  AllValid-validate_from i seen (r ∷ rs) (f, a, v) = ground (
    arith,
    Fits-rule_fault seen r (f, a),
    AllValid-validate_from (suc i) (seen ++ r.key ∷ []) rs v,
  )

  -- A list of rules passes `validateRules` exactly when every rule has a known key that no rule
  -- before it has, a threshold from 1 to 100 and 1 to 120 minutes.
  pub validate_rules-AllValid :
      (rs : List (Rule F)) → (validate_rules fl rs ≡ none) ↔ AllValid [] rs
  unfolding validate_rules
  validate_rules-AllValid rs = (validate_from-AllValid 0 [] rs, AllValid-validate_from 0 [] rs)
