-- ===== src/Services/JobService/Marks.antt =====
-- What a successful `mark_…` of app/services/job_service.py has written.
use async_ai_document_pipeli.Prelude.{
  ℕ, ◌+◌, ◌≡◌, true, false, ◌++◌, some, [], ◌∷◌, String, arith, ==_refl,
}
use async_ai_document_pipeli.Core.Enums.{JobStatus, queued, completed, retrying, failed}
use async_ai_document_pipeli.Core.Exec.{ok}
use async_ai_document_pipeli.Db.Models.{ProcessingJob}
use async_ai_document_pipeli.Db.Session.{update_job}
use async_ai_document_pipeli.Platform.{Platform}
use async_ai_document_pipeli.Platform.Laws.{DbLaws}
use async_ai_document_pipeli.Platform.World.{World}
use async_ai_document_pipeli.Services.JobService.{
  is_transition_allowed, truncate_error, attempt_duration,
}
use async_ai_document_pipeli.Services.JobService.Operations.{
  mark_completed, completed_with, mark_failed, mark_retrying, reset_for_manual_retry, failed_with,
  retrying_with, requeued_at,
}

-- The row with the job's key is the object that the operation returned, in a state that the
-- transition table allows.
pub record Moved (p : Platform) (db : p.Db) (job job' : ProcessingJob) (target : JobStatus)
    : Type 0 where
  pub allowed : is_transition_allowed job.status target ≡ true
  pub reached : job'.status ≡ target
  pub same_key : job'.id ≡ job.id
  pub stored : p.db.job db job.id ≡ some job'

module _ {p : Platform} (laws : DbLaws p) (job : ProcessingJob) (w : World p) where
  abbrev pub now : ℕ
  now = (p.env.utcnow w.env).0

  -- Without a commit the change is pending, and the database is as it was.
  pub mark_completed-staged :
      {job' : ProcessingJob}
      → (mark_completed false job w).0 ≡ ok job'
      → (is_transition_allowed job.status completed ≡ true)
        × ((mark_completed false job w).1.session
            ≡ w.session
              ++ update_job job.id (completed_with now (attempt_duration p.env job.started_at now))
                ∷ [])
        × ((mark_completed false job w).1.db ≡ w.db)
  unfolding mark_completed
  mark_completed-staged h = ground arith

  module _ {job' : ProcessingJob} (clean : w.session ≡ [])
      (loaded : p.db.job w.db job.id ≡ some job) where
    pub mark_failed-Moved :
        (message : String)
        → (mark_failed message job w).0 ≡ ok job'
        → Moved p (mark_failed message job w).1.db job job' failed
    unfolding mark_failed
    mark_failed-Moved message h =
        let f = failed_with now (attempt_duration p.env job.started_at now) message in
        ground (arith, ==_refl job.id, laws.commit_job (update_job job.id f ∷ []) w.db job.id)

    pub mark_failed-error_message :
        (message : String)
        → (mark_failed message job w).0 ≡ ok job'
        → job'.error_message ≡ truncate_error (some message)
    unfolding mark_failed
    mark_failed-error_message message h = ground arith

    pub mark_retrying-Moved :
        (message : String)
        → (mark_retrying message job w).0 ≡ ok job'
        → Moved p (mark_retrying message job w).1.db job job' retrying
    unfolding mark_retrying
    mark_retrying-Moved message h =
        let f = retrying_with (job.retry_count + 1) message in
        ground (arith, ==_refl job.id, laws.commit_job (update_job job.id f ∷ []) w.db job.id)

    pub mark_retrying-retry_count :
        (message : String)
        → (mark_retrying message job w).0 ≡ ok job'
        → (job'.retry_count ≡ job.retry_count + 1) × (job'.max_retries ≡ job.max_retries)
    unfolding mark_retrying
    mark_retrying-retry_count message h = ground arith

    pub reset_for_manual_retry-Moved :
        (reset_for_manual_retry job w).0 ≡ ok job'
        → Moved p (reset_for_manual_retry job w).1.db job job' queued
    unfolding reset_for_manual_retry
    reset_for_manual_retry-Moved h = ground (
      arith,
      ==_refl job.id,
      laws.commit_job (update_job job.id (requeued_at now) ∷ []) w.db job.id,
    )
