-- ===== src/Services/Publisher.antt =====
-- app/services/publisher.py
use async_ai_document_pipeli.Prelude.{ℕ, Option, String}
use async_ai_document_pipeli.Core.Enums.{document_processing_requested}
use async_ai_document_pipeli.Core.Exec.{Exec, pure, ◌>>=◌}
use async_ai_document_pipeli.Core.Settings.{Settings}
use async_ai_document_pipeli.Db.Models.{Document, ProcessingJob}
use async_ai_document_pipeli.Schemas.Events.{Event, event_version_supported}
use async_ai_document_pipeli.Platform.{Platform}
use async_ai_document_pipeli.Platform.World.{World, utcnow, uuid4}
use async_ai_document_pipeli.Services.Queue.Producing.{publish}

module _ (p : Platform) where
  -- The correlation identifier is the one bound to the current context.
  unfoldable pub build_event : Option String → ProcessingJob → Document → ℕ → Exec (World p) Event
  build_event correlation_id job document attempt = do
    event_id ← uuid4
    now ← utcnow
    pure (record {
      event_id = event_id;
      event_type = document_processing_requested;
      event_version = event_version_supported;
      job_id = job.id;
      document_id = document.id;
      storage_path = document.storage_path;
      requested_document_type = document.requested_document_type;
      attempt = attempt;
      created_at = now;
      correlation_id = correlation_id;
    })

  unfoldable pub publish_job :
      Settings p.Float → Option String → ProcessingJob → Document → ℕ → Exec (World p) String
  publish_job settings correlation_id job document attempt = do
    event ← build_event correlation_id job document attempt
    publish p settings event
