-- ===== src/Worker/Processor/Failure.antt =====
-- `_handle_failure` of app/worker/processor.py: what the database holds when it returns.
use async_ai_document_pipeli.Prelude.{
  ℕ, ◌+◌, ◌≤◌, ◌≡◌, refl, ◌∙◌, Bool, true, false, some, [], String, arith,
}
use async_ai_document_pipeli.Core.Enums.{failed}
use async_ai_document_pipeli.Core.Errors.{Exn}
use async_ai_document_pipeli.Core.Exec.{ok, pure}
use async_ai_document_pipeli.Core.Exec.Inversion.{>>=-ok, ok-injective}
use async_ai_document_pipeli.Core.Settings.{Settings}
use async_ai_document_pipeli.Db.Models.{ProcessingJob}
use async_ai_document_pipeli.Platform.{Platform}
use async_ai_document_pipeli.Platform.Laws.{DbLaws}
use async_ai_document_pipeli.Platform.World.{World, utcnow, uuid4, rollback}
use async_ai_document_pipeli.Platform.Refresh.{refresh, refresh-ok}
use async_ai_document_pipeli.Schemas.Events.{Event}
use async_ai_document_pipeli.Services.JobService.Marks.{
  mark_failed-Moved, mark_retrying-Moved, mark_retrying-retry_count,
}
use async_ai_document_pipeli.Services.JobService.Operations.{mark_failed, mark_retrying}
use async_ai_document_pipeli.Services.Queue.{command}
use async_ai_document_pipeli.Services.Queue.Producing.{schedule_retry}
use async_ai_document_pipeli.Worker.Processor.Recorded.{
  Recorded, InState, AwaitsRetry, at_key, as_outcome,
}
use async_ai_document_pipeli.Worker.RetryPolicy.{should_retry, compute_delay}
use async_ai_document_pipeli.Worker.Processor.{
  ProcessingOutcome, retry_scheduled, failed_outcome, try_schedule, retry_or_fail, handle_failure,
  retry_if, after_schedule, schedule_next, not_scheduled, fail_job,
}

module _ (p : Platform) (settings : Settings p.Float) where
  module _ (job : ProcessingJob) (event : Event) (w : World p) where
    pub try_schedule-db : (try_schedule p settings job event w).1.db ≡ w.db
    unfolding try_schedule schedule_next not_scheduled schedule_retry compute_delay uuid4 utcnow
        command
    try_schedule-db = ground arith

    pub try_schedule-session : (try_schedule p settings job event w).1.session ≡ w.session
    unfolding try_schedule schedule_next not_scheduled schedule_retry compute_delay uuid4 utcnow
        command
    try_schedule-session = ground arith

module _ (p : Platform) (laws : DbLaws p) (settings : Settings p.Float) where
  module _ (job : ProcessingJob) (w : World p) (clean : w.session ≡ [])
      (loaded : p.db.job w.db job.id ≡ some job) where
    pub fail_job-InState :
        (message : String) (outcome : ProcessingOutcome) {result : ProcessingOutcome}
        → (fail_job p settings message outcome job w).0 ≡ ok result
        → (result ≡ outcome)
          × InState p (fail_job p settings message outcome job w).1.db job.id failed
    unfolding fail_job
    fail_job-InState message outcome h =
        let (job', done, same, after) = >>=-ok (mark_failed message job) (λ _. pure outcome) w h in
        let moved = mark_failed-Moved laws job w clean loaded message done in
        (cc, rw after (job', moved.stored, moved.reached))

    retried-AwaitsRetry :
        (message : String) {job' : ProcessingJob}
        → job.retry_count + 1 ≤ job.max_retries
        → (mark_retrying message job w).0 ≡ ok job'
        → AwaitsRetry p (mark_retrying message job w).1.db job.id
    retried-AwaitsRetry message {job'} room h =
        let moved = mark_retrying-Moved laws job w clean loaded message h in
        let counted = mark_retrying-retry_count laws job w clean loaded message h in
        (job', moved.stored, moved.reached, omega arith)

module _ (p : Platform) (laws : DbLaws p) (settings : Settings p.Float) (before : p.Db) where
  after_schedule-Recorded :
      (job : ProcessingJob) (message : String) (scheduled : Bool) (w : World p)
      {outcome : ProcessingOutcome}
      → w.session ≡ []
      → p.db.job w.db job.id ≡ some job
      → job.retry_count + 1 ≤ job.max_retries
      → (after_schedule p settings job message scheduled w).0 ≡ ok outcome
      → Recorded p before (after_schedule p settings job message scheduled w).1.db job.id outcome
  unfolding after_schedule
  after_schedule-Recorded job message false w clean loaded room h =
      let (same, recorded) =
        fail_job-InState p laws settings job w clean loaded _ failed_outcome h in
      rw same recorded
  after_schedule-Recorded job message true w clean loaded room h =
      let (job', done, same, after) =
        >>=-ok (mark_retrying message job) (λ _. pure retry_scheduled) w h in
      let recorded = retried-AwaitsRetry p laws settings job w clean loaded message room done in
      as_outcome p before _ job.id (ok-injective same) (rw after recorded)

  retry_if-Recorded :
      (job : ProcessingJob) (event : Event) (message : String) (retry : Bool) (w : World p)
      {outcome : ProcessingOutcome}
      → w.session ≡ []
      → p.db.job w.db job.id ≡ some job
      → (retry ≡ true → job.retry_count + 1 ≤ job.max_retries)
      → (retry_if p settings job event message retry w).0 ≡ ok outcome
      → Recorded p before (retry_if p settings job event message retry w).1.db job.id outcome
  unfolding retry_if
  retry_if-Recorded job event message false w clean loaded room h =
      let (same, recorded) =
        fail_job-InState p laws settings job w clean loaded _ failed_outcome h in
      rw same recorded
  retry_if-Recorded job event message true w clean loaded room h =
      let (flag, tried, rest, after) =
        >>=-ok (try_schedule p settings job event) (after_schedule p settings job message) w h in
      let db_kept = try_schedule-db p settings job event w in
      rw after (
        after_schedule-Recorded job message flag (try_schedule p settings job event w).1
          (try_schedule-session p settings job event w ∙ clean) (rw db_kept loaded) (room refl)
          rest)

  pub should_retry-room :
      (error : Exn) (count budget : ℕ) → should_retry error count budget ≡ true → count + 1 ≤ budget
  unfolding should_retry
  should_retry-room error count budget h = ground arith

  pub handle_failure-Recorded :
      (job : ProcessingJob) (event : Event) (error : Exn) (w : World p)
      {outcome : ProcessingOutcome}
      → (handle_failure p settings job event error w).0 ≡ ok outcome
      → Recorded p before (handle_failure p settings job event error w).1.db job.id outcome
  unfolding handle_failure rollback retry_or_fail
  handle_failure-Recorded job event error w h =
      let w₁ : World p = record w { session = [] } in
      let (fresh, refreshed, rest, after) =
        >>=-ok (refresh job) (λ job'. retry_or_fail p settings job' event error) w₁ h in
      let (found, session_kept, still) = refresh-ok laws job w₁ refreshed in
      let key = laws.job_key w₁.db job.id fresh found in
      rw after (
        at_key p before _ _ key (
          retry_if-Recorded fresh event _ _ (refresh job w₁).1 session_kept (rw key still)
            (should_retry-room error fresh.retry_count fresh.max_retries) rest))
