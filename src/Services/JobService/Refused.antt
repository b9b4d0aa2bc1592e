-- ===== src/Services/JobService/Refused.antt =====
-- A move that the transition table of app/services/job_service.py does not list is refused.
use async_ai_document_pipeli.Prelude.{◌≡◌, Bool, true, false, String, arith, ◌⊕◌}
use async_ai_document_pipeli.Core.Enums.{
  JobStatus, queued, completed, retrying, failed, status_value,
}
use async_ai_document_pipeli.Core.Errors.{Exn, app_exn, invalid_job_transition}
use async_ai_document_pipeli.Core.Exec.{Exec, raised}
use async_ai_document_pipeli.Db.Models.{ProcessingJob}
use async_ai_document_pipeli.Platform.{Platform}
use async_ai_document_pipeli.Platform.World.{World}
use async_ai_document_pipeli.Services.JobService.{is_transition_allowed, ensure_transition_allowed}
use async_ai_document_pipeli.Services.JobService.Operations.{
  mark_completed, mark_retrying, mark_failed, reset_for_manual_retry,
}

-- `InvalidJobTransitionError`, with both states in its message.
abbrev pub transition_error : JobStatus → JobStatus → Exn
transition_error current target =
    app_exn invalid_job_transition
      ("Cannot move a job from " ⊕ status_value current ⊕ " to " ⊕ status_value target ⊕ ".")

-- The operations that are handed a loaded job, each with its own argument.
pub data Operation : Type 0 where
  complete : Bool → Operation
  retry fail : String → Operation
  requeue : Operation

abbrev pub target : Operation → JobStatus
target (complete flag) = completed
target (retry message) = retrying
target (fail message) = failed
target requeue = queued

abbrev pub perform : {p : Platform} → Operation → ProcessingJob → Exec (World p) ProcessingJob
perform (complete flag) = mark_completed flag
perform (retry message) = mark_retrying message
perform (fail message) = mark_failed message
perform requeue = reset_for_manual_retry

-- Whether the operation commits what it assigns.
abbrev pub commits : Operation → Bool
commits (complete flag) = flag
commits (retry message) = true
commits (fail message) = true
commits requeue = true

-- If the transition table has no edge from the job's state to the target of the operation, the
-- operation raises `InvalidJobTransitionError` with both states in its message and changes
-- nothing: neither the database, nor the session, nor Redis, nor the clock.
pub operation_refused :
    {p : Platform} (operation : Operation) (job : ProcessingJob) (w : World p)
    → is_transition_allowed job.status (target operation) ≡ false
    → perform operation job w ≡ (raised (transition_error job.status (target operation)), w)
unfolding mark_completed mark_retrying mark_failed reset_for_manual_retry ensure_transition_allowed
operation_refused (complete flag) job w h = ground arith
operation_refused (retry message) job w h = ground arith
operation_refused (fail message) job w h = ground arith
operation_refused requeue job w h = ground arith
