-- ===== src/Worker/Processor/Durable.antt =====
-- `process` of app/worker/processor.py: what it has made durable when it returns.
use async_ai_document_pipeli.Prelude.{
  ◌≡◌, refl, sym, subst, Bool, true, false, Option, none, some, [], String, arith,
}
use async_ai_document_pipeli.Core.Enums.{processing}
use async_ai_document_pipeli.Core.Exec.{ok}
use async_ai_document_pipeli.Core.Exec.Inversion.{
  >>=-ok, ok-injective, try_except-ok, returned, handled,
}
use async_ai_document_pipeli.Core.Settings.{Settings}
use async_ai_document_pipeli.Db.Models.{Uuid, ProcessingJob}
use async_ai_document_pipeli.Platform.{Platform}
use async_ai_document_pipeli.Platform.Laws.{DbLaws}
use async_ai_document_pipeli.Platform.World.{World}
use async_ai_document_pipeli.Services.JobService.Operations.{claim_job}
use async_ai_document_pipeli.Services.JobService.Rows.{
  claim_job-none, claim_job-some, claim_job-session,
}
use async_ai_document_pipeli.Services.Queue.{DeliveredEvent}
use async_ai_document_pipeli.Worker.Processor.{
  ProcessingOutcome, skipped, dead_lettered, redelivered_message, run, handle_failure,
  dead_letter_or_run, process_claimed, after_claim, with_session, process,
}
use async_ai_document_pipeli.Worker.Processor.Recorded.{Recorded, at_key, as_outcome}
use async_ai_document_pipeli.Worker.Processor.Failure.{fail_job-InState, handle_failure-Recorded}
use async_ai_document_pipeli.Worker.Processor.Success.{run-Stored}

module _ (p : Platform) (laws : DbLaws p) (settings : Settings p.Float) (before : p.Db) where
  module _ (delivered : DeliveredEvent) (job : ProcessingJob) (w : World p)
      {outcome : ProcessingOutcome} (clean : w.session ≡ [])
      (loaded : p.db.job w.db job.id ≡ some job) (claimed : job.status ≡ processing) where
    dead_letter_or_run-Recorded :
        (over : Bool)
        → (dead_letter_or_run p settings delivered job over w).0 ≡ ok outcome
        → Recorded p before (dead_letter_or_run p settings delivered job over w).1.db job.id outcome
    unfolding dead_letter_or_run
    dead_letter_or_run-Recorded true h =
        let (same, recorded) =
          fail_job-InState p laws settings job w clean loaded
            (redelivered_message delivered.delivery_count) dead_lettered h in
        as_outcome p before _ job.id (sym same) recorded
    dead_letter_or_run-Recorded false h =
        let body = run p settings job delivered.event in
        let handler = handle_failure p settings job delivered.event in
        elim (try_except-ok body handler w h) [
          | returned done after ↦ rw after (
              let (same, stored) =
                run-Stored p laws settings job delivered.event w clean loaded done in
              as_outcome p before _ job.id (sym same) stored)
          | handled e failed caught after ↦ rw after (
              handle_failure-Recorded p laws settings before job delivered.event e (body w).1
                caught)
        ]

  after_claim-Recorded :
      (delivered : DeliveredEvent) (job : ProcessingJob) (w : World p) {outcome : ProcessingOutcome}
      → w.session ≡ []
      → p.db.job w.db job.id ≡ some job
      → job.status ≡ processing
      → (after_claim p settings delivered (some job) w).0 ≡ ok outcome
      → Recorded p before (after_claim p settings delivered (some job) w).1.db job.id outcome
  unfolding after_claim process_claimed
  after_claim-Recorded delivered job w clean loaded claimed h =
      dead_letter_or_run-Recorded delivered job w clean loaded claimed _ h

module _ (p : Platform) (laws : DbLaws p) (settings : Settings p.Float) (consumer : String)
    (delivered : DeliveredEvent) (w : World p) where
  abbrev w₀ : World p
  w₀ = record w { session = [] }

  abbrev id : Uuid
  id = delivered.event.job_id

  abbrev w_claimed : World p
  w_claimed = (claim_job id consumer settings.stale_processing_seconds w₀).1

  claimed-Recorded :
      (claimed : Option ProcessingJob) {outcome : ProcessingOutcome}
      → (claim_job id consumer settings.stale_processing_seconds w₀).0 ≡ ok claimed
      → (after_claim p settings delivered claimed w_claimed).0 ≡ ok outcome
      → Recorded p w.db (after_claim p settings delivered claimed w_claimed).1.db id outcome
  unfolding after_claim
  claimed-Recorded none c h =
      as_outcome p w.db w_claimed.db id {o = skipped} (ok-injective h)
        (claim_job-none laws w₀ id consumer settings.stale_processing_seconds refl c)
  claimed-Recorded (some job) c h =
      let (row, found, able, made, stored) =
        claim_job-some laws w₀ id consumer settings.stale_processing_seconds refl c in
      let session = claim_job-session laws w₀ id consumer settings.stale_processing_seconds c in
      let key = laws.job_key w_claimed.db id job stored in
      at_key p w.db _ _ key (
        after_claim-Recorded p laws settings w.db delivered job w_claimed session
          (subst (λ k. p.db.job w_claimed.db k ≡ some job) (sym key) stored) (ground arith) h)

  -- If `process` returns an outcome, then the committed rows agree with it, for every platform
  -- whose database keeps its laws and whatever the session held. For `completed` the job's row is
  -- completed and a result of the job is stored with it. For `retry_scheduled` the row is
  -- `retrying` with a retry count within its budget, for `failed` and `dead_lettered` it is
  -- `failed`, and for `skipped` no job's row has changed.
  pub process-Recorded :
      {outcome : ProcessingOutcome}
      → (process p settings consumer delivered w).0 ≡ ok outcome
      → Recorded p w.db (process p settings consumer delivered w).1.db id outcome
  unfolding process with_session
  process-Recorded h =
      let (claimed, c, rest, after) =
        >>=-ok (claim_job id consumer settings.stale_processing_seconds)
          (after_claim p settings delivered) w₀ h in
      rw after (claimed-Recorded claimed c rest)
