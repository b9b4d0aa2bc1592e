-- ===== src/Api/Jobs.antt =====
-- `retry_job` of app/api/routes/jobs.py: puts a failed job back on the queue.
pub mod Retried
use async_ai_document_pipeli.Prelude.{Option, String}
use async_ai_document_pipeli.Core.Exec.{Exec, pure, ◌>>=◌, ◌>>◌}
use async_ai_document_pipeli.Core.Settings.{Settings}
use async_ai_document_pipeli.Db.Models.{Uuid, ProcessingJob}
use async_ai_document_pipeli.Platform.{Platform}
use async_ai_document_pipeli.Platform.World.{World}
use async_ai_document_pipeli.Services.JobService.Operations.{get_job, reset_for_manual_retry}
use async_ai_document_pipeli.Api.Publishing.{publish_or_fail}

module _ (p : Platform) (settings : Settings p.Float) (correlation_id : Option String) where
  -- The job after the reset is the object that the response is made of.
  unfoldable pub retry_job : Uuid → Exec (World p) ProcessingJob
  retry_job job_id = do
    job ← get_job job_id
    requeued ← reset_for_manual_retry job
    publish_or_fail p settings correlation_id requeued
        "The job could not be re-queued for processing."
    pure requeued
