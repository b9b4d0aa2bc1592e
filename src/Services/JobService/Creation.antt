-- ===== src/Services/JobService/Creation.antt =====
-- `create_document_and_job` of app/services/job_service.py.
use async_ai_document_pipeli.Prelude.{ℕ, Option, none, String}
use async_ai_document_pipeli.Core.Enums.{queued, DocumentType}
use async_ai_document_pipeli.Core.Exec.{Exec, pure, ◌>>=◌, ◌>>◌}
use async_ai_document_pipeli.Db.Models.{StoredFile, Document, ProcessingJob}
use async_ai_document_pipeli.Db.Session.{insert_job}
use async_ai_document_pipeli.Platform.{Platform}
use async_ai_document_pipeli.Platform.World.{World, utcnow, uuid4, stage, commit}
use async_ai_document_pipeli.Platform.Refresh.{refresh, refresh_document}

unfoldable pub create_document_and_job :
    {p : Platform}
    → StoredFile
    → String
    → String
    → Option DocumentType
    → ℕ
    → Exec (World p) (Document × ProcessingJob)
unfolding uuid4 utcnow stage commit
create_document_and_job stored original_filename content_type requested max_retries = do
  document_id ← uuid4
  job_id ← uuid4
  now ← utcnow
  let document : Document = record {
    id = document_id;
    original_filename = original_filename;
    stored_filename = stored.stored_filename;
    content_type = content_type;
    file_size = stored.size;
    storage_path = stored.storage_path;
    checksum = stored.checksum;
    requested_document_type = requested;
  }
  let job : ProcessingJob = record {
    id = job_id;
    document = document;
    status = queued;
    retry_count = 0;
    max_retries = max_retries;
    error_message = none;
    queued_at = now;  -- the column's server default
    started_at = none;
    completed_at = none;
    processing_duration_ms = none;
    consumer_name = none;
  }
  stage (insert_job job)
  commit
  fresh ← refresh job
  saved ← refresh_document fresh
  pure (saved, fresh)
