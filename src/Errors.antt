-- ===== src/Errors.antt =====
-- Go's errors as the program builds and tests them: sentinel values, errors of other libraries by
-- their text, and fmt.Errorf with %w, which errors.Is looks through.
use bcrstracking.Prelude.{◌⊎◌, inl, inr, String, Bool, true, false, ◌≡◌, refl}

-- context.Canceled, context.DeadlineExceeded, and ErrTokenInvalidated of
-- internal/client/bcrs_client.go.
pub data Sentinel : Type 0 where
  canceled deadline_exceeded token_invalidated : Sentinel

pub data Error : Type 0 where
  sentinel : Sentinel → Error
  other : String → Error
  wrapped : String → Error → Error

abbrev pub same_sentinel : Sentinel → Sentinel → Bool
same_sentinel canceled canceled = true
same_sentinel deadline_exceeded deadline_exceeded = true
same_sentinel token_invalidated token_invalidated = true
same_sentinel _ _ = false

-- errors.Is
unfoldable pub is_error : Sentinel → Error → Bool
is_error s (sentinel t) = same_sentinel s t
is_error s (other text) = false
is_error s (wrapped text e) = is_error s e

-- (A, error), where the code looks at the value only if the error is nil.
pub data Result {ℓ} (A : Type ℓ) : Type ℓ where
  ok : A → Result A
  err : Error → Result A

-- To split a computed result and keep the equation.
pub Result-cases {ℓ} :
    {A : Type ℓ} (r : Result A) → ((a : A) × (r ≡ ok a)) ⊎ ((e : Error) × (r ≡ err e))
Result-cases (ok a) = inl (a, refl)
Result-cases (err e) = inr (e, refl)

is_error-wrapped : is_error canceled (wrapped "rate limiter wait failed" (sentinel canceled)) ≡ true
unfolding is_error
is_error-wrapped = refl
