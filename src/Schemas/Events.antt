-- ===== src/Schemas/Events.antt =====
-- app/schemas/events.py: the event that asks for one document to be processed.
use async_ai_document_pipeli.Prelude.{ℕ, ◌+◌, Option, String}
use async_ai_document_pipeli.Core.Enums.{DocumentType, EventType}
use async_ai_document_pipeli.Db.Models.{Uuid, Instant}

abbrev pub event_version_supported : ℕ
event_version_supported = 1

-- The stream field the JSON payload is stored under.
abbrev pub payload_field : String
payload_field = "data"

pub record Event : Type 0 where
  pub event_id : Uuid
  pub event_type : EventType
  pub event_version : ℕ
  pub job_id : Uuid
  pub document_id : Uuid
  pub storage_path : String
  pub requested_document_type : Option DocumentType
  pub attempt : ℕ
  pub created_at : Instant
  pub correlation_id : Option String

-- `next_attempt`, given the fresh identifier and the time that it draws.
unfoldable pub next_attempt : Uuid → Instant → Event → Event
next_attempt fresh now event = record event {
  event_id = fresh;
  attempt = event.attempt + 1;
  created_at = now;
}
