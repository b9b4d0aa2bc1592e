-- ===== src/Worker/RetryPolicy.antt =====
-- app/worker/retry_policy.py: whether to retry, how long to wait, and what to store of a failure.
pub mod Delay
pub mod FloatLaws
use Prim.Native.Nat.{◌^◌}
use async_ai_document_pipeli.Prelude.{
  ℕ, Bool, ◌&&◌, Option, none, some, List, [], ◌∷◌, String, ltb, if◌then◌else◌, ◌⊕◌,
}
use async_ai_document_pipeli.Core.Errors.{Exn, app, foreign, code, retryable, isinstance_any}
use async_ai_document_pipeli.Core.Exec.{Outcome, ok, raised, Exec, pure, ◌>>=◌}
use async_ai_document_pipeli.Core.Settings.{Settings}
use async_ai_document_pipeli.Platform.{Platform, Floats}
use async_ai_document_pipeli.Platform.World.{World, on_env, lift}

abbrev pub retryable_exceptions : List String
retryable_exceptions =
    "ConnectionError" ∷ "TimeoutError" ∷ "sqlalchemy.exc.OperationalError"
    ∷ "sqlalchemy.exc.DisconnectionError" ∷ "sqlalchemy.exc.DBAPIError" ∷ []

unfoldable pub is_retryable : Exn → Bool
is_retryable (app e) = retryable e.class
is_retryable (foreign e) = isinstance_any (foreign e) retryable_exceptions

unfoldable pub should_retry : Exn → ℕ → ℕ → Bool
should_retry error retry_count max_retries = is_retryable error && ltb retry_count max_retries

unfoldable pub describe : Exn → String
describe (app e) = code e.class ⊕ ": " ⊕ e.message
describe (foreign e) = e.type_name ⊕ ": " ⊕ e.text

-- `max(0, attempt)`
unfoldable pub exponent_of : ℕ → ℕ
exponent_of attempt = if ltb 0 attempt then attempt else 0

-- The exception of `float(n)` for an integer that is too large.
abbrev pub overflow_error : Exn
overflow_error = foreign (record {
  type_name = "OverflowError";
  classes = "OverflowError" ∷ "ArithmeticError" ∷ "Exception" ∷ [];
  text = "int too large to convert to float";
})

module _ {F : Type 0} (float : Floats F) where
  -- `min(base * factor, max)`
  unfoldable pub capped_at : F → Settings F → F
  capped_at factor settings =
      let raw = float.mul settings.retry_base_delay_seconds factor in
      if float.leq raw settings.retry_max_delay_seconds
      then raw
      else settings.retry_max_delay_seconds

  -- The backoff before jitter, with the factor `float(2**exponent)`.
  unfoldable pub capped_delay : ℕ → Settings F → Outcome F
  unfolding capped_at exponent_of
  capped_delay attempt settings = elim (float.of_int (2 ^ exponent_of attempt)) [
    | none ↦ raised overflow_error
    | some factor ↦ ok (capped_at factor settings)
  ]

  -- `max(0.0, x)`
  unfoldable pub at_least_zero : F → F
  at_least_zero x = if float.leq x float.zero_f then float.zero_f else x

unfoldable pub compute_delay : (p : Platform) → ℕ → Settings p.Float → Exec (World p) p.Float
unfolding capped_delay at_least_zero
compute_delay p attempt settings = do
  capped ← lift (capped_delay p.float attempt settings)
  if p.float.leq settings.retry_jitter_ratio p.float.zero_f then pure capped else do
    let spread = p.float.mul capped settings.retry_jitter_ratio
    drawn ← on_env (p.env.uniform (p.float.neg spread) spread)
    pure (at_least_zero p.float (p.float.add capped drawn))
