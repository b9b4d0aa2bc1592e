-- ===== src/Core/Errors/Hierarchy.antt =====
-- The hierarchy of app/core/exceptions.py as a whole: which failures are transient, and what the API renders.
use async_ai_document_pipeli.Prelude.{◌≤◌, ◌<◌, ◌≡◌, ◌⊎◌, ◌↔◌, true, List, [], ◌∷◌, arith}
use async_ai_document_pipeli.Core.Errors.{
  ErrorClass, app_error, retryable_error, non_retryable_error, llm_rate_limit, llm_timeout,
  llm_provider, mro, http_status, retryable,
}

abbrev In : ErrorClass → List ErrorClass → Type 0
In c [] = ⊥
In c (d ∷ ds) = (c ≡ d) ⊎ In c ds

-- `issubclass(c, base)`
abbrev pub DerivesFrom : ErrorClass → ErrorClass → Type 0
DerivesFrom c base = In base (mro c)

-- The three provider failures that override `LLMError`.
abbrev pub IsTransientLlm : ErrorClass → Type 0
IsTransientLlm c = (c ≡ llm_rate_limit) ⊎ (c ≡ llm_timeout) ⊎ (c ≡ llm_provider)

-- A class of exceptions is retryable exactly when it derives from `RetryableError` or is one of
-- the three provider failures that override `LLMError`.
pub retryable_iff :
    (c : ErrorClass) → (retryable c ≡ true) ↔ (DerivesFrom c retryable_error ⊎ IsTransientLlm c)
unfolding retryable mro
retryable_iff c = (λ h. ground arith, λ h. ground arith)

-- No class derives from `NonRetryableError` and is retryable, every class derives from
-- `AppError`, and the status of every class is an HTTP error.
pub hierarchy_sound :
    (c : ErrorClass)
    → ¬ (DerivesFrom c non_retryable_error × (retryable c ≡ true))
      × DerivesFrom c app_error
      × (400 ≤ http_status c)
      × (http_status c < 600)
unfolding retryable mro http_status
hierarchy_sound c = (λ h. ground arith, ground arith, ground arith, ground arith)
