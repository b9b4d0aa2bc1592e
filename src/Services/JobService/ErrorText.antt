-- ===== src/Services/JobService/ErrorText.antt =====
-- `_truncate_error` of app/services/job_service.py.
use async_ai_document_pipeli.Prelude.{
  ◌≤◌, ◌<◌, ◌≡◌, ◌⊎◌, refl, Bool-cases, inl, inr, leb, some, String, arith, len, prefix, ◌⊕◌,
  len-prefix, len-⊕,
}
use async_ai_document_pipeli.Services.JobService.{truncate_error, max_error_message_chars}

-- A message within the limit is stored as it is. A longer one is stored as its first 2000
-- characters and a mark of 15 more, so that 2015 is the longest that is stored.
pub truncate_error_bounds :
    (message : String)
    → (len message ≤ max_error_message_chars) × (truncate_error (some message) ≡ some message)
      ⊎ (max_error_message_chars < len message)
        × ((stored : String) × (truncate_error (some message) ≡ some stored)
            × (stored ≡ prefix max_error_message_chars message ⊕ "... [truncated]")
            × (len stored ≡ 2015))
unfolding truncate_error
truncate_error_bounds message = elim (Bool-cases (leb (len message) max_error_message_chars)) [
  | inl fits ↦ inl (ground arith, rw fits)
  | inr long ↦ inr (
    ground arith,
    (
      prefix max_error_message_chars message ⊕ "... [truncated]",
      rw long,
      refl,
      ground (
        arith,
        len-⊕ (prefix max_error_message_chars message) "... [truncated]",
        len-prefix max_error_message_chars message,
      ),
    ),
  )
]
