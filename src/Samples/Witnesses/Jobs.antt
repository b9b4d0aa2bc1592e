-- ===== src/Samples/Witnesses/Jobs.antt =====
-- The theorems on jobs and their processing, at concrete inputs over the platform in memory.
use async_ai_document_pipeli.Prelude.{◌+◌, ◌-◌, ◌≡◌, refl, true, some, none, arith}
use async_ai_document_pipeli.Core.Enums.{queued, completed, failed, is_terminal, is_active}
use async_ai_document_pipeli.Core.Exec.{ok, raised}
use async_ai_document_pipeli.Db.Models.{ProcessingJob}
use async_ai_document_pipeli.Platform.World.{utcnow, stage, commit, rollback, select_job}
use async_ai_document_pipeli.Schemas.Events.{Event}
use async_ai_document_pipeli.Services.JobService.{is_claimable, claimed_by, truncate_error, seconds}
use async_ai_document_pipeli.Services.JobService.Exclusive.{claim-exclusive}
use async_ai_document_pipeli.Services.JobService.Lifecycle.{
  RowStep, RowReach, IsWellFormed, RowReach-IsWellFormed,
}
use async_ai_document_pipeli.Services.JobService.Marks.{Moved}
use async_ai_document_pipeli.Services.JobService.Operations.{claim_job, mark_failed}
use async_ai_document_pipeli.Services.JobService.Performed.{perform-Moved}
use async_ai_document_pipeli.Services.JobService.Refused.{
  Operation, operation_refused, perform, transition_error,
}
use async_ai_document_pipeli.Services.JobService.Rows.{claim_job-some}
use async_ai_document_pipeli.Worker.Consumer.{handle}
use async_ai_document_pipeli.Worker.Consumer.Acknowledged.{
  handle-durable, handle-unclaimable, acked,
}
use async_ai_document_pipeli.Worker.Processor.{
  process, completed_outcome, retry_scheduled, skipped, try_schedule,
}
use async_ai_document_pipeli.Worker.Processor.Durable.{process-Recorded}
use async_ai_document_pipeli.Worker.Processor.Recorded.{Recorded}
use async_ai_document_pipeli.Db.Models.{Uuid}
use async_ai_document_pipeli.Worker.Processor.{
  handle_failure, persist, missing_greenlet, failed_outcome,
}
use async_ai_document_pipeli.Worker.Processor.Duplicate.{duplicate_result-fails}
use async_ai_document_pipeli.Worker.Processor.Recorded.{InState}
use async_ai_document_pipeli.Samples.Database.{duplicate}
use async_ai_document_pipeli.Samples.Answered.{
  sample_output, answered_world, finished_job, answered_marked, answered_refused,
  answered_integrity, answered_failed,
}
use async_ai_document_pipeli.Worker.Processor.Retried.{IsRetried, handle_failure-IsRetried}
use async_ai_document_pipeli.Samples.Runs.{timeout, busy_retried}
use async_ai_document_pipeli.Worker.Processor.Scheduled.{try_schedule-true, parked}
use async_ai_document_pipeli.Samples.Memory.{
  memory, memory_laws, memory_settings, sample_event, sample_job, world_with,
}
use async_ai_document_pipeli.Samples.Runs.{
  delivered, fresh_world, failing_world, busy_world, busy_job, busy_found, busy_unclaimable,
  busy_skipped, fresh_session, fresh_found, after_claim_world, after_session, after_database,
  after_soon, no_edge, queued_edge, scheduled_ok, failed_sample, processed_retries, handled_reports,
}

process-Recorded_example :
    Recorded memory failing_world.db
      (process memory memory_settings "w" delivered failing_world).1.db
      7
      retry_scheduled
process-Recorded_example =
    process-Recorded memory memory_laws memory_settings "w" delivered failing_world
      {outcome = retry_scheduled} processed_retries

handle-durable_example :
    Recorded memory fresh_world.db
      (handle memory memory_settings "w" delivered fresh_world).1.db
      7
      completed_outcome
    × ((handle memory memory_settings "w" delivered fresh_world).1.redis
        ≡ acked memory memory_settings "w" delivered
            (process memory memory_settings "w" delivered fresh_world).1.redis)
handle-durable_example =
    handle-durable memory memory_settings "w" delivered memory_laws fresh_world completed_outcome
      handled_reports

handle-unclaimable_example :
    (skipped ≡ skipped)
    × (memory.db.job (handle memory memory_settings "w" delivered busy_world).1.db 7
        ≡ some busy_job)
    × ((handle memory memory_settings "w" delivered busy_world).1.redis
        ≡ acked memory memory_settings "w" delivered busy_world.redis)
handle-unclaimable_example =
    handle-unclaimable memory memory_settings "w" delivered memory_laws busy_world busy_job
      busy_found busy_unclaimable skipped busy_skipped

first_claim : (claim_job 7 "a" 600 fresh_world).0 ≡ ok (some (claimed_by 1000000000 "a" sample_job))
unfolding claim_job utcnow select_job commit rollback stage world_with memory
first_claim = refl

claim_job-some_example :
    (row : ProcessingJob) × (memory.db.job fresh_world.db 7 ≡ some row)
    × (is_claimable ((memory.env.utcnow fresh_world.env).0 - seconds 600) row ≡ true)
    × (claimed_by 1000000000 "a" sample_job
        ≡ claimed_by (memory.env.utcnow fresh_world.env).0 "a" row)
    × (memory.db.job (claim_job 7 "a" 600 fresh_world).1.db 7
        ≡ some (claimed_by 1000000000 "a" sample_job))
claim_job-some_example =
    claim_job-some memory_laws fresh_world 7 "a" 600 {job = claimed_by 1000000000 "a" sample_job}
      fresh_session first_claim

claim-exclusive_example : ¬ ((claim_job 7 "b" 600 after_claim_world).0 ≡ ok (some sample_job))
claim-exclusive_example =
    claim-exclusive memory memory_laws fresh_world after_claim_world 7 "a" "b" 600
      (claimed_by 1000000000 "a" sample_job) sample_job fresh_session after_session first_claim
      after_database after_soon

operation_refused_example :
    perform (Operation.complete true) sample_job fresh_world
    ≡ (raised (transition_error queued completed), fresh_world)
operation_refused_example =
    operation_refused (Operation.complete true) sample_job fresh_world no_edge

failed_ok :
    (perform {p = memory} (Operation.fail "broken") sample_job fresh_world).0 ≡ ok failed_sample
unfolding mark_failed commit stage utcnow memory world_with truncate_error
failed_ok = refl

perform-Moved_example :
    Moved memory
      (perform {p = memory} (Operation.fail "broken") sample_job fresh_world).1.db
      sample_job
      failed_sample
      failed
perform-Moved_example =
    perform-Moved memory_laws (Operation.fail "broken") sample_job failed_sample fresh_world
      fresh_session fresh_found refl failed_ok

sample-IsWellFormed : IsWellFormed sample_job
unfolding is_terminal is_active
sample-IsWellFormed = record {
  within_budget = omega arith;
  terminal_stamped = λ h. ground arith;
  active_unstamped = λ h. refl;
  processing_started = λ h. ground arith;
  processing_owned = λ h. ground arith;
}

sample-RowReach : RowReach sample_job failed_sample
unfolding truncate_error
sample-RowReach =
    RowReach.next RowReach.here (RowStep.fail sample_job 1000000000 none "broken" queued_edge)

RowReach-IsWellFormed_example : IsWellFormed failed_sample
RowReach-IsWellFormed_example =
    RowReach-IsWellFormed sample_job failed_sample sample-IsWellFormed sample-RowReach

try_schedule-true_example :
    (next : Event) × (score : memory.Float) × ((parked memory memory_settings sample_job
        sample_event fresh_world next score).0
      ≡ ok tt)
    × ((try_schedule memory memory_settings sample_job sample_event fresh_world).1.redis
        ≡ (parked memory memory_settings sample_job sample_event fresh_world next score).1)
    × (next.job_id ≡ 7)
    × (next.attempt ≡ 0 + 1)
try_schedule-true_example =
    try_schedule-true memory memory_settings sample_job sample_event fresh_world scheduled_ok

handle_failure-IsRetried_example :
    IsRetried memory memory_settings sample_event timeout 7 busy_world
      (handle_failure memory memory_settings busy_job sample_event timeout busy_world).1
handle_failure-IsRetried_example =
    handle_failure-IsRetried memory memory_laws memory_settings sample_event timeout busy_job
      busy_world busy_retried

duplicate_result-fails_example :
    ((persist memory memory_settings busy_job sample_output "hello" answered_world).0
      ≡ raised missing_greenlet)
    × ((id : Uuid)
        → (memory.db.job
              (persist memory memory_settings busy_job sample_output "hello" answered_world).1.db
              id
            ≡ memory.db.job answered_world.db id)
          × (memory.db.result
                (persist memory memory_settings busy_job sample_output "hello" answered_world).1.db
                id
              ≡ memory.db.result answered_world.db id))
    × (failed_outcome ≡ failed_outcome)
    × InState memory
        (handle_failure memory memory_settings busy_job sample_event missing_greenlet
          (persist memory memory_settings busy_job sample_output "hello" answered_world).1).1.db
        7
        failed
duplicate_result-fails_example =
    duplicate_result-fails memory memory_laws memory_settings busy_job sample_output "hello"
      answered_world duplicate finished_job sample_event answered_marked answered_refused
      answered_integrity answered_failed
