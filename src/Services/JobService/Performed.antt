-- ===== src/Services/JobService/Performed.antt =====
-- What the operations of app/services/job_service.py on a loaded job do when they succeed.
use async_ai_document_pipeli.Prelude.{◌<◌, ◌≡◌, true, some, [], ◌∷◌, arith, ==_refl}
use async_ai_document_pipeli.Core.Exec.{ok}
use async_ai_document_pipeli.Db.Models.{ProcessingJob}
use async_ai_document_pipeli.Db.Session.{update_job}
use async_ai_document_pipeli.Platform.{Platform}
use async_ai_document_pipeli.Platform.Laws.{DbLaws}
use async_ai_document_pipeli.Platform.World.{World}
use async_ai_document_pipeli.Services.JobService.{attempt_duration}
use async_ai_document_pipeli.Services.JobService.Marks.{
  Moved, mark_failed-Moved, mark_retrying-Moved, reset_for_manual_retry-Moved,
}
use async_ai_document_pipeli.Services.JobService.Operations.{mark_completed, completed_with}
use async_ai_document_pipeli.Services.JobService.Refused.{
  Operation, complete, retry, fail, requeue, target, perform, commits,
}

-- What the caller of an operation has seen to: `should_retry` asks for an attempt that is left.
abbrev pub HasRoom : Operation → ProcessingJob → Type 0
HasRoom (retry message) job = job.retry_count < job.max_retries
HasRoom (complete flag) job = Unit
HasRoom (fail message) job = Unit
HasRoom requeue job = Unit

-- If an operation that commits succeeds on a job that was loaded from the database, with nothing
-- else pending, then the transition table had the edge, and the row of the job is the object that
-- was returned, with its key, in the target state.
pub perform-Moved :
    {p : Platform} (laws : DbLaws p) (operation : Operation) (job job' : ProcessingJob)
    (w : World p)
    → w.session ≡ []
    → p.db.job w.db job.id ≡ some job
    → commits operation ≡ true
    → (perform operation job w).0 ≡ ok job'
    → Moved p (perform operation job w).1.db job job' (target operation)
unfolding mark_completed
perform-Moved {p} laws (complete flag) job job' w clean loaded commit h =
    let now = (p.env.utcnow w.env).0 in
    let f = completed_with now (attempt_duration p.env job.started_at now) in
    ground (arith, ==_refl job.id, laws.commit_job (update_job job.id f ∷ []) w.db job.id)
perform-Moved laws (retry message) job job' w clean loaded commit h =
    mark_retrying-Moved laws job w clean loaded message h
perform-Moved laws (fail message) job job' w clean loaded commit h =
    mark_failed-Moved laws job w clean loaded message h
perform-Moved laws requeue job job' w clean loaded commit h =
    reset_for_manual_retry-Moved laws job w clean loaded h
