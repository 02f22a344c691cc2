-- ===== src/Database/Errors.antt =====
-- The errors that the Store's methods return. A wrapped error is the error it wraps, since callers
-- look through the wrapping; what a message adds to it is not modelled.
use ai_self_service.Prelude.{ℕ}
use ai_self_service.Keyprovider.{GatewayError}

pub data Error : Type 0 where
  -- the engine's: a failed statement, a violated constraint, `sql.ErrNoRows`
  io constraint no_rows : Error
  -- `ErrDefaultProfile`, `ProfileInUseError`, and `SeedDefaultProfile`'s refusal
  default_profile : Error
  profile_in_use : ℕ → Error
  no_default : Error
  -- `ctx.Err()`
  context_done : Error
  -- the session manager's and `http.ErrNoCookie`; a failed `rand.Read`
  session_expired no_cookie no_random : Error
  -- a provider's error, passed on
  upstream : GatewayError → Error

pub data Result {ℓ} (A : Type ℓ) : Type ℓ where
  ok : A → Result A
  err : Error → Result A
