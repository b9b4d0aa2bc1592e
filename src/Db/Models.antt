-- ===== src/Db/Models.antt =====
-- app/db/models: the rows of the three tables. A time is a count of microseconds, the resolution of
-- Python's `datetime`, and a UUID is a number.
use async_ai_document_pipeli.Prelude.{ℕ, ◌-◌, Option, String}
use async_ai_document_pipeli.Core.Enums.{JobStatus, DocumentType}

abbrev pub Uuid : Type 0
Uuid = ℕ

abbrev pub Instant : Type 0
Instant = ℕ

-- A decimal fraction that the code passes on and never computes with: `digits` / 10 ^ `scale`.
pub record Decimal : Type 0 where
  pub digits : ℕ
  pub scale : ℕ

-- A JSON value, in two data types.
mutual
  pub data Json : Type 0 where
    null : Json
    text : String → Json
    num : Decimal → Json
    arr : Items → Json
    obj : Fields → Json

  pub data Items : Type 0 where
    nil : Items
    item : Json → Items → Items

  pub data Fields : Type 0 where
    end : Fields
    field : String → Json → Fields → Fields

-- `StoredFile` of app/services/file_storage.py: the outcome of persisting an upload.
pub record StoredFile : Type 0 where
  pub stored_filename : String
  pub storage_path : String
  pub size : ℕ
  pub checksum : String

pub record Document : Type 0 where
  pub id : Uuid
  pub original_filename : String
  pub stored_filename : String
  pub content_type : String
  pub file_size : ℕ
  pub storage_path : String
  pub checksum : String
  pub requested_document_type : Option DocumentType

-- A row of `processing_jobs` with its document, which every job query loads.
pub record ProcessingJob : Type 0 where
  pub id : Uuid
  pub document : Document
  pub status : JobStatus
  pub retry_count : ℕ
  pub max_retries : ℕ
  pub error_message : Option String
  pub queued_at : Instant
  pub started_at : Option Instant
  pub completed_at : Option Instant
  pub processing_duration_ms : Option ℕ
  pub consumer_name : Option String

-- Retries still available: `max(0, max_retries - retry_count)`.
unfoldable pub attempts_remaining : ProcessingJob → ℕ
attempts_remaining job = job.max_retries - job.retry_count

pub record ExtractionResult : Type 0 where
  pub job_id : Uuid
  pub detected_document_type : DocumentType
  pub extracted_data : Json
  pub raw_text : Option String
  pub model_provider : String
  pub model_name : String
  pub prompt_version : String
  pub input_tokens : Option ℕ
  pub output_tokens : Option ℕ
  pub confidence_score : Option Decimal
