-- ===== src/Samples/Requests.antt =====
-- Requests to the endpoints over the platform in memory.
use async_ai_document_pipeli.Services.FileValidation.{
  validate_sanitized, validate_extension, extract_extension, validate_content_type, declared_type,
  validate_size, validate_magic_bytes,
}
use async_ai_document_pipeli.Samples.Runs.{processed, fresh_world}
use async_ai_document_pipeli.Api.Jobs.{retry_job}
use async_ai_document_pipeli.Api.Publishing.{publish_or_fail, fail_and_raise}
use async_ai_document_pipeli.Services.Publisher.{build_event, publish_job}
use async_ai_document_pipeli.Services.Queue.Producing.{publish, to_stream_fields}
use async_ai_document_pipeli.Services.JobService.{truncate_error}
use async_ai_document_pipeli.Services.JobService.Operations.{get_job, reset_for_manual_retry}
use async_ai_document_pipeli.Core.Errors.{queue_error}
use async_ai_document_pipeli.Core.Exec.{raised}
use async_ai_document_pipeli.Prelude.{none, true, false, ◌≡◌, refl, some, [], ◌∷◌}
use async_ai_document_pipeli.Core.Errors.{Exn, app_exn, is_queue_error}
use async_ai_document_pipeli.Core.Exec.{ok}
use async_ai_document_pipeli.Core.Paths.{suffix}
use async_ai_document_pipeli.Core.Enums.{failed}
use async_ai_document_pipeli.Db.Models.{ProcessingJob}
use async_ai_document_pipeli.Platform.World.{World}
use async_ai_document_pipeli.Services.JobService.Operations.{mark_failed}
use async_ai_document_pipeli.Services.TextExtraction.{strip, rstrip}
use async_ai_document_pipeli.Samples.Memory.{memory, memory_settings, sample_job, world_with}

-- A job that has failed.
abbrev pub failed_job : ProcessingJob
failed_job = record sample_job {
  status = failed;
  retry_count = 3;
  error_message = some "broken";
  completed_at = some 900000000;
}

abbrev pub failed_world : World memory
failed_world = world_with failed_job 1000000000 []

pub failed_session : failed_world.session ≡ []
unfolding world_with
failed_session = refl

-- What a retry makes of it.
abbrev pub requeued_job : ProcessingJob
requeued_job = record sample_job { queued_at = 1000000000 }

pub retried : (retry_job memory memory_settings none 7 failed_world).0 ≡ ok requeued_job
unfolding processed retry_job get_job reset_for_manual_retry publish_or_fail fail_and_raise
    publish_job build_event publish to_stream_fields
retried = refl

-- A process that has not connected to Redis.
unfoldable pub offline_world : World memory
unfolding world_with
offline_world = record fresh_world { connected = false }

pub offline_session : offline_world.session ≡ []
unfolding offline_world
offline_session = refl

pub offline_found : memory.db.job offline_world.db 7 ≡ some sample_job
unfolding offline_world memory world_with
offline_found = refl

abbrev pub not_connected : Exn
not_connected = app_exn queue_error "The Redis queue is not connected."

pub offline_raises :
    (publish_job memory memory_settings none sample_job sample_job.document 0 offline_world).0
    ≡ raised not_connected
unfolding processed publish_job build_event publish to_stream_fields offline_world
offline_raises = refl

pub not_connected-IsQueueError : is_queue_error not_connected ≡ true
unfolding processed is_queue_error
not_connected-IsQueueError = refl

-- The sample job, failed after the event was made.
abbrev pub unqueued_job : ProcessingJob
unqueued_job = record sample_job {
  status = failed;
  completed_at = some 1000000001;
  error_message = some "lost";
}

pub offline_marked :
    (mark_failed "lost" sample_job
      (publish_job memory memory_settings none sample_job sample_job.document 0 offline_world).1).0
    ≡ ok unqueued_job
unfolding processed publish_job build_event publish to_stream_fields offline_world truncate_error
offline_marked = refl

-- An upload of one byte of text.
pub accepted :
    validate_sanitized memory.parsers memory.float memory_settings "a.txt"
      (some "text/plain")
      (104 ∷ [])
    ≡ ok ".txt"
unfolding validate_sanitized validate_extension extract_extension validate_content_type
    declared_type validate_size validate_magic_bytes memory memory_settings suffix strip rstrip
accepted = refl
