-- ===== src/Stats/Errors.antt =====
-- The errors of pkg/stats as values.
use casa_os_common.Common.{Bool, true, false, ◌≡◌, refl, ◌⊎◌, inl, inr}

-- The error variables of types.go, ring.go and store.go, and the errors that come from outside.
pub data Cause : Type 0 where
  unknown_item bad_range bad_item bad_key series_cap too_many_items out_of_order : Cause
  store_closed ring_skipped corrupt bad_version ring_closed gone bad_window bad_rules : Cause
  io_error unexpected_eof : Cause

-- An error is a cause, a cause wrapped by `fmt.Errorf("%w: …")`, or `errors.Join` of errors.
mutual
  pub data Err : Type 0 where
    cause : Cause → Err
    wrap : Err → Err
    join : Errs → Err

  pub data Errs : Type 0 where
    nil : Errs
    cons : Err → Errs → Errs

pub data Result {ℓ} (A : Type ℓ) : Type ℓ where
  ok : A → Result A
  err : Err → Result A

-- `errors.Is(err, ErrSeriesCap) || errors.Is(err, ErrBadKey)`
abbrev pub is_key_cause : Cause → Bool
is_key_cause series_cap = true
is_key_cause bad_key = true
is_key_cause _ = false

infixl 5 ◌>>=◌
abbrev pub ◌>>=◌ {ℓ κ} : {A : Type ℓ} {B : Type κ} → Result A → (A → Result B) → Result B
ok a >>= f = f a
err e >>= f = err e

pub Result-cases {ℓ} :
    {A : Type ℓ} (r : Result A) → ((a : A) × (r ≡ ok a)) ⊎ ((e : Err) × (r ≡ err e))
Result-cases (ok a) = inl (a, refl)
Result-cases (err e) = inr (e, refl)
