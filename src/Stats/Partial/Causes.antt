-- ===== src/Stats/Partial/Causes.antt =====
-- `IsPartial` of pkg/stats/types.go against its comment: false where another cause is joined.
use casa_os_common.Common.{◌≡◌, refl, ◌∙◌, ap, arith, Bool, true, false, ◌&&◌, ◌||◌}
use casa_os_common.Stats.Errors.{Err, Errs, cause, wrap, join, nil, cons, is_key_cause}
use casa_os_common.Stats.Partial.{is_key_error, any_key_error, is_partial, all_partial}

-- Every cause in the tree is a rejected key.
abbrev mutual
  pub all_keys : Err → Bool
  all_keys (cause c) = is_key_cause c
  all_keys (wrap e) = all_keys e
  all_keys (join es) = each_keys es

  pub each_keys : Errs → Bool
  each_keys nil = true
  each_keys (cons e es) = let rest = each_keys es in all_keys e && rest

-- No join is wrapped, and each join has an error, as one made by `errors.Join` has.
abbrev mutual
  pub Plain : Err → Type 0
  Plain (cause c) = Unit
  Plain (wrap e) = Alone e
  Plain (join nil) = ⊥
  Plain (join (cons e es)) = Plain e × AllPlain es

  pub AllPlain : Errs → Type 0
  AllPlain nil = Unit
  AllPlain (cons e es) = Plain e × AllPlain es

  -- A cause, perhaps wrapped.
  pub Alone : Err → Type 0
  Alone (cause c) = Unit
  Alone (wrap e) = Alone e
  Alone (join es) = ⊥

Alone-all_keys : (e : Err) → Alone e → is_key_error e ≡ all_keys e
unfolding is_key_error
Alone-all_keys (cause c) p = refl
Alone-all_keys (wrap e) p = Alone-all_keys e p
Alone-all_keys (join es) p = ground arith

key_of_partial : (e : Err) → is_partial e ≡ true → is_key_error e ≡ true
unfolding is_partial
key_of_partial (cause c) h = h
key_of_partial (wrap e) h = h
key_of_partial (join es) h = ground arith

first_is_enough : (k a p q : Bool) → (p ≡ true → k ≡ true) → (k || a) && (p && q) ≡ p && q
first_is_enough true a p q f = refl
first_is_enough false a true q f = ground (arith, f refl)
first_is_enough false true false q f = refl
first_is_enough false false false q f = refl

mutual
  unfolding is_partial

  agree_err : (e : Err) → Plain e → is_partial e ≡ all_keys e
  agree_err (cause c) p = refl
  agree_err (wrap e) p = Alone-all_keys e p
  agree_err (join nil) p = ground arith
  agree_err (join (cons e es)) p =
      first_is_enough (is_key_error e) (any_key_error es) (is_partial e) (all_partial es)
        (key_of_partial e)
      ∙ ap (λ b. b && all_partial es) (agree_err e p.0)
      ∙ ap (λ b. all_keys e && b) (agree_errs es p.1)

  agree_errs : (es : Errs) → AllPlain es → all_partial es ≡ each_keys es
  agree_errs nil p = refl
  agree_errs (cons e es) p =
      ap (λ b. b && all_partial es) (agree_err e p.0)
      ∙ ap (λ b. all_keys e && b) (agree_errs es p.1)

-- For an error made of causes, wrapped or not, and of joins that are not wrapped: `IsPartial` is true
-- exactly when every cause is a rejected key.
pub is_partial-all_keys : (e : Err) → Plain e → is_partial e ≡ all_keys e
is_partial-all_keys e p = agree_err e p
