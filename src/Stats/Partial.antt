-- ===== src/Stats/Partial.antt =====
-- `IsPartial` of pkg/stats/types.go.
pub mod Causes
use casa_os_common.Common.{
  ◌≡◌, refl, ◌↔◌, arith, Bool, true, false, not, ◌&&◌, ◌||◌, Option, none, some,
}
use casa_os_common.Stats.Errors.{Cause, Err, Errs, cause, wrap, join, nil, cons, is_key_cause}

-- `errors.Is` for one of `ErrSeriesCap` and `ErrBadKey`: in the tree of wrapped and joined errors.
unfoldable mutual
  pub is_key_error : Err → Bool
  is_key_error (cause c) = is_key_cause c
  is_key_error (wrap e) = is_key_error e
  is_key_error (join es) = any_key_error es

  pub any_key_error : Errs → Bool
  any_key_error nil = false
  any_key_error (cons e es) = is_key_error e || any_key_error es

-- `IsPartial` of an error that is not nil; only a join has the method `Unwrap() []error`.
unfoldable mutual
  unfolding is_key_error any_key_error

  pub is_partial : Err → Bool
  is_partial (cause c) = is_key_cause c
  is_partial (wrap e) = is_key_error e
  is_partial (join es) = any_key_error es && all_partial es

  pub all_partial : Errs → Bool
  all_partial nil = true
  all_partial (cons e es) = let rest = all_partial es in is_partial e && rest
