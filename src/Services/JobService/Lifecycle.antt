-- ===== src/Services/JobService/Lifecycle.antt =====
-- The life of a row of `processing_jobs`: the writes that app/services/job_service.py makes to it, each with the
-- guard that it passes first.
use async_ai_document_pipeli.Prelude.{
  ℕ, ◌+◌, ◌≤◌, ◌<◌, ◌≡◌, ◌≢◌, refl, ap, ◌∙◌, true, Option, none, some, String, arith,
}
use async_ai_document_pipeli.Core.Enums.{
  queued, processing, retrying, completed, failed, is_terminal, is_active,
}
use async_ai_document_pipeli.Db.Models.{Instant, ProcessingJob}
use async_ai_document_pipeli.Services.JobService.{is_claimable, is_transition_allowed, claimed_by}
use async_ai_document_pipeli.Services.JobService.Operations.{
  completed_with, retrying_with, failed_with, requeued_at,
}

-- The guard of a retry is `should_retry`, which asks for an attempt that is left.
pub data RowStep : ProcessingJob → ProcessingJob → Type 0 where
  claim :
      (job : ProcessingJob) (cutoff now : Instant) (consumer : String)
      → is_claimable cutoff job ≡ true
      → RowStep job (claimed_by now consumer job)
  complete :
      (job : ProcessingJob) (now : Instant) (ms : Option ℕ)
      → is_transition_allowed job.status completed ≡ true
      → RowStep job (completed_with now ms job)
  retry :
      (job : ProcessingJob) (message : String)
      → is_transition_allowed job.status retrying ≡ true
      → job.retry_count < job.max_retries
      → RowStep job (retrying_with (job.retry_count + 1) message job)
  fail :
      (job : ProcessingJob) (now : Instant) (ms : Option ℕ) (message : String)
      → is_transition_allowed job.status failed ≡ true
      → RowStep job (failed_with now ms message job)
  requeue :
      (job : ProcessingJob) (now : Instant)
      → is_transition_allowed job.status queued ≡ true
      → RowStep job (requeued_at now job)

pub data RowReach (job : ProcessingJob) : ProcessingJob → Type 0 where
  here : RowReach job job
  next : {a b : ProcessingJob} → RowReach job a → RowStep a b → RowReach job b

-- What holds of a row between two writes.
pub record IsWellFormed (job : ProcessingJob) : Type 0 where
  pub within_budget : job.retry_count ≤ job.max_retries
  pub terminal_stamped : is_terminal job.status ≡ true → job.completed_at ≢ none
  pub active_unstamped : is_active job.status ≡ true → job.completed_at ≡ none
  pub processing_started : job.status ≡ processing → job.started_at ≢ none
  pub processing_owned : job.status ≡ processing → job.consumer_name ≢ none

RowStep-IsWellFormed : {a b : ProcessingJob} → RowStep a b → IsWellFormed a → IsWellFormed b
unfolding is_claimable is_transition_allowed is_terminal is_active
RowStep-IsWellFormed (claim job cutoff now consumer g) v = ground arith
RowStep-IsWellFormed (complete job now none g) v = ground arith
RowStep-IsWellFormed (complete job now (some ms) g) v = ground arith
RowStep-IsWellFormed (retry job message g room) v = ground arith
RowStep-IsWellFormed (fail job now none message g) v = ground arith
RowStep-IsWellFormed (fail job now (some ms) message g) v = ground arith
RowStep-IsWellFormed (requeue job now g) v = ground arith

-- Any steps of the life of a row, in any order, keep it well formed: the retry count stays within
-- the budget, a terminal row has a completion time and an active one has none, and a row that is
-- `processing` has a start and an owner.
pub RowReach-IsWellFormed : (a b : ProcessingJob) → IsWellFormed a → RowReach a b → IsWellFormed b
RowReach-IsWellFormed a b v here = v
RowReach-IsWellFormed a b v (next r s) = RowStep-IsWellFormed s (RowReach-IsWellFormed a _ v r)

no_step_of_completed : {a b : ProcessingJob} → RowStep a b → a.status ≢ completed
unfolding is_claimable is_transition_allowed
no_step_of_completed (claim job cutoff now consumer g) c = ground arith
no_step_of_completed (complete job now ms g) c = ground arith
no_step_of_completed (retry job message g room) c = ground arith
no_step_of_completed (fail job now ms message g) c = ground arith
no_step_of_completed (requeue job now g) c = ground arith

-- No steps of the life of a row change one that is completed.
pub completed_is_final : (a b : ProcessingJob) → a.status ≡ completed → RowReach a b → b ≡ a
completed_is_final a b c here = refl
completed_is_final a b c (next r s) =
    absurd (
      no_step_of_completed s
        (ap (λ (j : ProcessingJob). j.status) (completed_is_final a _ c r) ∙ c))
