-- ===== src/Api/Publishing.antt =====
-- The end of both endpoints that queue a job, `upload_document` of app/api/routes/documents.py and
-- `retry_job` of app/api/routes/jobs.py: a job that cannot be published is failed at once.
pub mod Settled
use async_ai_document_pipeli.Prelude.{true, false, Option, String}
use async_ai_document_pipeli.Core.Errors.{Exn, is_queue_error}
use async_ai_document_pipeli.Core.Exec.{Exec, pure, raise, ◌>>=◌, ◌>>◌, try_except}
use async_ai_document_pipeli.Core.Settings.{Settings}
use async_ai_document_pipeli.Db.Models.{ProcessingJob}
use async_ai_document_pipeli.Platform.{Platform}
use async_ai_document_pipeli.Platform.World.{World}
use async_ai_document_pipeli.Services.JobService.Operations.{mark_failed}
use async_ai_document_pipeli.Services.Publisher.{publish_job}

module _ (p : Platform) (settings : Settings p.Float) (correlation_id : Option String) where
  -- `except QueueError: mark_failed(…); raise`
  unfoldable pub fail_and_raise : ProcessingJob → String → Exn → Exec (World p) String
  fail_and_raise job error_message e = elim (is_queue_error e) [
    | true ↦ mark_failed error_message job >> raise e
    | false ↦ raise e
  ]

  unfoldable pub publish_or_fail : ProcessingJob → String → Exec (World p) String
  publish_or_fail job error_message =
      try_except (publish_job p settings correlation_id job job.document 0)
        (fail_and_raise job error_message)
