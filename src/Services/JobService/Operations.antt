-- ===== src/Services/JobService/Operations.antt =====
-- The operations of app/services/job_service.py that read a job or move it to another state.
use async_ai_document_pipeli.Prelude.{
  ℕ, ◌+◌, ◌-◌, Bool, true, Option, none, some, String, if◌then◌else◌,
}
use async_ai_document_pipeli.Core.Enums.{queued, completed, failed, retrying}
use async_ai_document_pipeli.Core.Errors.{not_found, app_exn}
use async_ai_document_pipeli.Core.Exec.{Exec, pure, raise, ◌>>=◌, ◌>>◌}
use async_ai_document_pipeli.Db.Models.{Uuid, Instant, ProcessingJob}
use async_ai_document_pipeli.Db.Session.{update_job}
use async_ai_document_pipeli.Platform.{Platform}
use async_ai_document_pipeli.Platform.World.{World, utcnow, stage, commit, rollback, select_job}
use async_ai_document_pipeli.Services.JobService.{
  ensure_transition_allowed, truncate_error, attempt_duration, assign, commit_if, is_claimable,
  claimed_by, seconds,
}

-- `job.processing_duration_ms = …` under `if job.started_at is not None`.
abbrev pub with_duration : Option ℕ → ProcessingJob → ProcessingJob
with_duration none job = job
with_duration (some ms) job = record job { processing_duration_ms = some ms }

abbrev pub completed_with : Instant → Option ℕ → ProcessingJob → ProcessingJob
completed_with now ms job =
    with_duration ms
      (record job { status = completed; completed_at = some now; error_message = none })

-- The assignments of `mark_retrying`, where `count` is the new `retry_count`.
abbrev pub retrying_with : ℕ → String → ProcessingJob → ProcessingJob
retrying_with count message job = record job {
  status = retrying;
  retry_count = count;
  error_message = truncate_error (some message);
}

abbrev pub failed_with : Instant → Option ℕ → String → ProcessingJob → ProcessingJob
failed_with now ms message job = with_duration ms (record job {
  status = failed;
  completed_at = some now;
  error_message = truncate_error (some message);
})

abbrev pub requeued_at : Instant → ProcessingJob → ProcessingJob
requeued_at now job = record job {
  status = queued;
  retry_count = 0;
  error_message = none;
  queued_at = now;
  started_at = none;
  completed_at = none;
  processing_duration_ms = none;
  consumer_name = none;
}

module _ {p : Platform} where
  unfoldable pub get_job : Uuid → Exec (World p) ProcessingJob
  unfolding select_job
  get_job job_id = do
    row ← select_job job_id
    elim row [
      | none ↦ raise (app_exn not_found "No job exists with that ID.")
      | some job ↦ pure job
    ]

  -- The conditional UPDATE … RETURNING: a row that meets the condition is locked and its new
  -- values are pending.
  unfoldable pub update_where :
      Uuid → (ProcessingJob → Bool) → (ProcessingJob → ProcessingJob) → Exec (World p) (Option Uuid)
  unfolding select_job stage
  update_where job_id condition values = do
    row ← select_job job_id
    elim row [
      | none ↦ pure none
      | some job ↦
          if condition job
          then (do stage (update_job job_id values); pure (some job_id))
          else pure none
    ]

  unfoldable pub claim_job : Uuid → String → ℕ → Exec (World p) (Option ProcessingJob)
  unfolding utcnow update_where rollback commit get_job is_claimable
  claim_job job_id consumer_name stale_after_seconds = do
    now ← utcnow
    let stale_cutoff = now - seconds stale_after_seconds
    claimed ← update_where job_id (is_claimable stale_cutoff) (claimed_by now consumer_name)
    elim claimed [
      | none ↦ do rollback; pure none
      | some id ↦ do commit; job ← get_job job_id; pure (some job)
    ]

  unfoldable pub mark_completed : Bool → ProcessingJob → Exec (World p) ProcessingJob
  unfolding ensure_transition_allowed utcnow attempt_duration assign commit_if
  mark_completed flag job = do
    ensure_transition_allowed job.status completed
    now ← utcnow
    let ms = attempt_duration p.env job.started_at now
    job' ← assign (completed_with now ms) job
    commit_if flag
    pure job'

  unfoldable pub mark_retrying : String → ProcessingJob → Exec (World p) ProcessingJob
  unfolding ensure_transition_allowed assign commit_if
  mark_retrying error_message job = do
    ensure_transition_allowed job.status retrying
    job' ← assign (retrying_with (job.retry_count + 1) error_message) job
    commit_if true
    pure job'

  unfoldable pub mark_failed : String → ProcessingJob → Exec (World p) ProcessingJob
  unfolding ensure_transition_allowed utcnow attempt_duration assign commit_if
  mark_failed error_message job = do
    ensure_transition_allowed job.status failed
    now ← utcnow
    let ms = attempt_duration p.env job.started_at now
    job' ← assign (failed_with now ms error_message) job
    commit_if true
    pure job'

  unfoldable pub reset_for_manual_retry : ProcessingJob → Exec (World p) ProcessingJob
  unfolding ensure_transition_allowed utcnow assign commit_if
  reset_for_manual_retry job = do
    ensure_transition_allowed job.status queued
    now ← utcnow
    job' ← assign (requeued_at now) job
    commit_if true
    pure job'
