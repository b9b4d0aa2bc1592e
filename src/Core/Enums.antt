-- ===== src/Core/Enums.antt =====
-- app/core/enums.py: the enumerations that models, schemas and the worker share.
use async_ai_document_pipeli.Prelude.{Bool, true, false, List, [], ◌∷◌, String, elem}

pub data JobStatus : Type 0 where
  queued processing retrying completed failed : JobStatus

-- The member's text, which `str()` and `.value` give.
unfoldable pub status_value : JobStatus → String
status_value queued = "queued"
status_value processing = "processing"
status_value retrying = "retrying"
status_value completed = "completed"
status_value failed = "failed"

-- `==` of two members.
abbrev pub status_eq : JobStatus → JobStatus → Bool
status_eq queued queued = true
status_eq processing processing = true
status_eq retrying retrying = true
status_eq completed completed = true
status_eq failed failed = true
status_eq _ _ = false

abbrev pub terminal_statuses : List JobStatus
terminal_statuses = completed ∷ failed ∷ []

abbrev pub active_statuses : List JobStatus
active_statuses = queued ∷ processing ∷ retrying ∷ []

-- States from which a worker is allowed to claim a job.
abbrev pub claimable_statuses : List JobStatus
claimable_statuses = queued ∷ retrying ∷ []

unfoldable pub is_terminal : JobStatus → Bool
is_terminal status = elem status_eq status terminal_statuses

unfoldable pub is_active : JobStatus → Bool
is_active status = elem status_eq status active_statuses

pub data DocumentType : Type 0 where
  invoice resume support_ticket generic : DocumentType

unfoldable pub type_value : DocumentType → String
type_value invoice = "invoice"
type_value resume = "resume"
type_value support_ticket = "support_ticket"
type_value generic = "generic"

pub data LlmProviderName : Type 0 where
  openai fake : LlmProviderName

pub data EventType : Type 0 where
  document_processing_requested : EventType
