-- ===== src/Services/JobService.antt =====
-- app/services/job_service.py: the transition table and the helpers; the operations stand in the
-- children `Creation` and `Operations`, and what holds of them in the others.
pub mod Creation
pub mod Created
pub mod Operations
pub mod Rows
pub mod Marks
pub mod Lifecycle
pub mod Refused
pub mod Performed
pub mod Advance
pub mod Advancing
pub mod Exclusive
pub mod ErrorText
use async_ai_document_pipeli.Prelude.{
  ℕ, ◌+◌, ◌-◌, ◌*◌, Bool, true, false, ◌&&◌, ◌||◌, Option, none, some, List, [], ◌∷◌, String, elem,
  ltb, leb, ◌==◌, if◌then◌else◌, len, prefix, ◌⊕◌,
}
use async_ai_document_pipeli.Core.Enums.{
  JobStatus, queued, processing, retrying, completed, failed, status_eq, status_value,
  claimable_statuses, DocumentType,
}
use async_ai_document_pipeli.Core.Errors.{not_found, invalid_job_transition, app_exn}
use async_ai_document_pipeli.Core.Exec.{Exec, pure, raise, ◌>>=◌, ◌>>◌}
use async_ai_document_pipeli.Db.Models.{Uuid, Instant, StoredFile, Document, ProcessingJob}
use async_ai_document_pipeli.Db.Session.{Change, insert_job, update_job}
use async_ai_document_pipeli.Platform.{Platform, Environment}
use async_ai_document_pipeli.Platform.World.{
  World, utcnow, uuid4, stage, commit, rollback, select_job,
}

-- `ALLOWED_TRANSITIONS`.
abbrev pub allowed_transitions : JobStatus → List JobStatus
allowed_transitions queued = processing ∷ failed ∷ []
allowed_transitions processing = completed ∷ retrying ∷ failed ∷ []
allowed_transitions retrying = processing ∷ failed ∷ []
allowed_transitions completed = []
allowed_transitions failed = queued ∷ []

unfoldable pub is_transition_allowed : JobStatus → JobStatus → Bool
is_transition_allowed current target = elem status_eq target (allowed_transitions current)

abbrev pub max_error_message_chars : ℕ
max_error_message_chars = 2000

unfoldable pub truncate_error : Option String → Option String
truncate_error none = none
truncate_error (some message) =
    if leb (len message) max_error_message_chars
    then some message
    else some (prefix max_error_message_chars message ⊕ "... [truncated]")

-- Whether an instant is set and before the cutoff, as the SQL condition has it.
unfoldable pub started_before : Instant → Option Instant → Bool
started_before cutoff none = false
started_before cutoff (some started) = ltb started cutoff

-- The condition of the conditional UPDATE of `claim_job`.
unfoldable pub is_claimable : Instant → ProcessingJob → Bool
unfolding started_before
is_claimable stale_cutoff job =
    elem status_eq job.status claimable_statuses
    || (status_eq job.status processing && started_before stale_cutoff job.started_at)

-- `now - timedelta(seconds=…)`.
abbrev pub seconds : ℕ → ℕ
seconds n = n * 1000000

-- The values that the UPDATE of `claim_job` sets.
abbrev pub claimed_by : Instant → String → ProcessingJob → ProcessingJob
claimed_by now consumer job = record job {
  status = processing;
  started_at = some now;
  consumer_name = some consumer;
}

-- `elapsed_ms` of app/core/time.py, and the duration of an attempt that has a start.
module _ {E F : Type 0} (env : Environment E F) where
  unfoldable pub elapsed_ms : Instant → Instant → ℕ
  elapsed_ms start end = if ltb end start then 0 else env.whole_ms (end - start)

  unfoldable pub attempt_duration : Option Instant → Instant → Option ℕ
  unfolding elapsed_ms
  attempt_duration none now = none
  attempt_duration (some started) now = some (elapsed_ms started now)

module _ {p : Platform} where
  unfoldable pub ensure_transition_allowed : JobStatus → JobStatus → Exec (World p) (Unit {0})
  unfolding is_transition_allowed
  ensure_transition_allowed current target =
      if is_transition_allowed current target
      then pure tt
      else raise (
          app_exn invalid_job_transition
            ("Cannot move a job from " ⊕ status_value current ⊕ " to " ⊕ status_value target ⊕ "."))

  -- Assignments to attributes of a loaded job: the object has them at once, the row at the commit.
  unfoldable pub assign :
      (ProcessingJob → ProcessingJob) → ProcessingJob → Exec (World p) ProcessingJob
  unfolding stage
  assign f job = do stage (update_job job.id f); pure (f job)

  unfoldable pub commit_if : Bool → Exec (World p) (Unit {0})
  unfolding commit
  commit_if true = commit
  commit_if false = pure tt
