-- ===== src/Stats/Evaluator/InForce.antt =====
-- The rules in force (`rules` of pkg/stats/evaluator.go) are always two.
use casa_os_common.Common.{
  ◌≡◌, refl, sym, ap, ◌∙◌, ◌⊎◌, inl, inr, arith, true, false, Option, none, some, List, [], ◌∷◌,
  Bytes, eq_bytes, eq_bytes_iff,
}
use casa_os_common.Common.Int.{pos}
use mathlib.Core.Path.{subst}
use casa_os_common.Stats.Floats.{Floats}
use casa_os_common.Stats.Rules.{Rule, cpu_high, mem_high}
use casa_os_common.Stats.Evaluator.Machine.{Evaluator, state_of, override, override_all, rules_of}

pub keys_differ : eq_bytes cpu_high mem_high ≡ false
unfolding eq_bytes
keys_differ = refl

module _ {F : Type 0} where
  -- Each rule has one of the two keys.
  abbrev pub AllKnown : List (Rule F) → Type 0
  AllKnown [] = Unit
  AllKnown (r ∷ rs) = ((r.key ≡ cpu_high) ⊎ (r.key ≡ mem_high)) × AllKnown rs

  -- A rule for `cpu_high`, then one for `mem_high`.
  pub record Two (out : Option (List (Rule F))) : Type 0 where
    pub cpu : Rule F
    pub mem : Rule F
    pub both : out ≡ some (cpu ∷ mem ∷ [])
    pub cpu_key : cpu.key ≡ cpu_high
    pub mem_key : mem.key ≡ mem_high

  override_cpu :
      (r c d : Rule F)
      → r.key ≡ cpu_high
      → c.key ≡ cpu_high
      → override r (c ∷ d ∷ []) ≡ some (r ∷ d ∷ [])
  unfolding override
  override_cpu r c d k p =
      let e : eq_bytes c.key r.key ≡ true = (eq_bytes_iff c.key r.key).1 (p ∙ sym k) in
      ground (arith, e)

  override_mem :
      (r c d : Rule F)
      → r.key ≡ mem_high
      → c.key ≡ cpu_high
      → d.key ≡ mem_high
      → override r (c ∷ d ∷ []) ≡ some (c ∷ r ∷ [])
  unfolding override
  override_mem r c d k p q =
      let e : eq_bytes d.key r.key ≡ true = (eq_bytes_iff d.key r.key).1 (q ∙ sym k) in
      let n : eq_bytes c.key r.key ≡ false =
        ap (λ j. eq_bytes j r.key) p ∙ ap (λ j. eq_bytes cpu_high j) k ∙ keys_differ in
      ground (arith, e, n)

  abbrev override_rest : List (Rule F) → Option (List (Rule F)) → Option (List (Rule F))
  override_rest rs none = none
  override_rest rs (some l) = override_all rs l

  pub override_all-Two :
      (rs : List (Rule F)) (c d : Rule F)
      → AllKnown rs
      → c.key ≡ cpu_high
      → d.key ≡ mem_high
      → Two (override_all rs (c ∷ d ∷ []))
  unfolding override_all override
  override_all-Two [] c d k p q = record { cpu = c; mem = d; both = refl; cpu_key = p; mem_key = q }
  override_all-Two (r ∷ rs) c d (inl k, ks) p q =
      subst (λ o. Two (override_rest rs o)) (sym (override_cpu r c d k p))
        (override_all-Two rs r d ks k q)
  override_all-Two (r ∷ rs) c d (inr k, ks) p q =
      subst (λ o. Two (override_rest rs o)) (sym (override_mem r c d k p q))
        (override_all-Two rs c r ks p k)

-- Where the rules stored for an item all have known keys, the rules in force are one for `cpu_high`
-- followed by one for `mem_high`; the search for the key does not fail.
pub rules_of-Two :
    {F : Type 0} (fl : Floats F) (item : Bytes) (e : Evaluator F)
    → AllKnown (state_of item e).rules
    → Two (rules_of fl item e)
unfolding rules_of
rules_of-Two fl item e known =
    override_all-Two (state_of item e).rules
      (record { key = cpu_high; enabled = true; threshold = fl.of_ℕ 90; minutes = pos 10 })
      (record { key = mem_high; enabled = true; threshold = fl.of_ℕ 90; minutes = pos 5 }) known
      refl refl
