-- ===== src/Samples/Runs.antt =====
-- Runs of the worker over the platform in memory.
use async_ai_document_pipeli.Prelude.{
  ℕ, zero, suc, ◌*◌, leb, true, String, List, ◌≤◌, arith, ◌-◌, false, ◌+◌, ◌≡◌, refl, some, [], ◌∷◌,
}
use async_ai_document_pipeli.Core.Errors.{
  Exn, app_exn, llm_timeout, retryable, code, isinstance, isinstance_any, is_queue_error,
}
use async_ai_document_pipeli.Core.Exec.{Outcome, ok}
use async_ai_document_pipeli.Core.Paths.{suffix}
use async_ai_document_pipeli.Core.Settings.{redis_retry_zset}
use async_ai_document_pipeli.Core.Enums.{queued, processing, completed, failed}
use async_ai_document_pipeli.Db.Models.{ProcessingJob}
use async_ai_document_pipeli.Platform.World.{
  World, utcnow, uuid4, stage, commit, rollback, select_job,
}
use async_ai_document_pipeli.Schemas.Events.{next_attempt}
use async_ai_document_pipeli.Services.JobService.Operations.{
  claim_job, mark_completed, mark_retrying, mark_failed,
}
use async_ai_document_pipeli.Services.JobService.{is_claimable, seconds, is_transition_allowed}
use async_ai_document_pipeli.Services.Queue.{
  DeliveredEvent, decode_one, field_value, count_or_one, command, client, as_queue_error,
}
use async_ai_document_pipeli.Services.Queue.Producing.{schedule_retry}
use async_ai_document_pipeli.Services.Queue.Consuming.{
  ack, Messages, decode_messages, deliver_or_drop,
}
use async_ai_document_pipeli.Services.TextExtraction.{extract_text, truncate}
use async_ai_document_pipeli.Samples.Memory.{
  memory, memory_settings, sample_event, sample_job, world_with,
}
use async_ai_document_pipeli.Platform.Refresh.{refresh}
use async_ai_document_pipeli.Worker.RetryPolicy.{
  compute_delay, should_retry, describe, is_retryable,
}
use async_ai_document_pipeli.Worker.Processor.{
  ProcessingOutcome, process, skipped, completed_outcome, retry_scheduled, with_session,
  after_claim, process_claimed, dead_letter_or_run, run, extract_output, resolve_type, persist,
  commit_result, result_row, handle_failure, retry_or_fail, retry_if, after_schedule, try_schedule,
  schedule_next, not_scheduled, fail_job,
}
use async_ai_document_pipeli.Worker.RetryPolicy.FloatLaws.{DelayLaws, AreDelays}
use async_ai_document_pipeli.Worker.Consumer.{handle, acknowledge, count_processed}

abbrev pub delivered : DeliveredEvent
delivered = record { message_id = "1"; event = sample_event; delivery_count = 1 }

abbrev pub timeout : Exn
timeout = app_exn llm_timeout "The language model request timed out."

-- A queued job, and a provider that answers.
abbrev pub fresh_world : World memory
fresh_world = world_with sample_job 1000000000 []

-- A queued job, and a provider whose next answer is a timeout.
abbrev pub failing_world : World memory
failing_world = world_with sample_job 1000000000 (timeout ∷ [])

-- `process` of the sample event, with all that it calls.
unfoldable pub processed : World memory → Outcome ProcessingOutcome × World memory
unfolding memory_settings command client as_queue_error process with_session claim_job after_claim
    process_claimed dead_letter_or_run run extract_output resolve_type extract_text truncate suffix
    persist stage mark_completed commit_result commit rollback result_row handle_failure refresh
    select_job retry_or_fail retry_if after_schedule try_schedule schedule_next not_scheduled
    compute_delay schedule_retry next_attempt utcnow uuid4 mark_retrying mark_failed fail_job
    should_retry is_retryable describe retryable code isinstance isinstance_any is_queue_error
    redis_retry_zset memory world_with
processed w = process memory memory_settings "w" delivered w

pub processed_completes :
    (process memory memory_settings "w" delivered fresh_world).0 ≡ ok completed_outcome
unfolding processed
processed_completes = refl

pub processed_retries :
    (process memory memory_settings "w" delivered failing_world).0 ≡ ok retry_scheduled
unfolding processed
processed_retries = refl

pub handled_reports :
    (handle memory memory_settings "w" delivered fresh_world).0 ≡ ok (some completed_outcome)
unfolding processed handle acknowledge count_processed ack
handled_reports = refl

-- A job that a worker claimed two minutes ago, and has not finished.
abbrev pub busy_job : ProcessingJob
busy_job = record sample_job {
  status = processing;
  started_at = some 880000000;
  consumer_name = some "other";
}

abbrev pub busy_world : World memory
busy_world = world_with busy_job 1000000000 []

-- A timeout in the work on that job.
pub busy_retried :
    (handle_failure memory memory_settings busy_job sample_event timeout busy_world).0
    ≡ ok retry_scheduled
unfolding processed
busy_retried = refl

pub busy_found : memory.db.job busy_world.db 7 ≡ some busy_job
unfolding memory world_with
busy_found = refl

pub busy_skipped : (handle memory memory_settings "w" delivered busy_world).0 ≡ ok (some skipped)
unfolding processed handle acknowledge count_processed ack
busy_skipped = refl

pub busy_unclaimable :
    is_claimable
      ((memory.env.utcnow busy_world.env).0 - seconds memory_settings.stale_processing_seconds)
      busy_job
    ≡ false
unfolding memory world_with is_claimable memory_settings
busy_unclaimable = refl

pub fresh_session : fresh_world.session ≡ []
unfolding world_with
fresh_session = refl

pub fresh_found : memory.db.job fresh_world.db 7 ≡ some sample_job
unfolding memory world_with
fresh_found = refl

-- Another worker's world, a second after a first one claimed the job.
unfoldable pub after_claim_world : World memory
unfolding memory world_with
after_claim_world = record fresh_world {
  db = (claim_job 7 "a" 600 fresh_world).1.db;
  env = record { now = 1001000000; fresh = 2000 };
}

pub after_session : after_claim_world.session ≡ []
unfolding after_claim_world world_with
after_session = refl

pub after_database : after_claim_world.db ≡ (claim_job 7 "a" 600 fresh_world).1.db
unfolding after_claim_world world_with
after_database = refl

pub after_soon :
    (memory.env.utcnow after_claim_world.env).0
    ≤ (memory.env.utcnow fresh_world.env).0 + seconds 600
unfolding after_claim_world world_with memory
after_soon = omega arith

pub no_edge : is_transition_allowed queued completed ≡ false
unfolding is_transition_allowed
no_edge = refl

-- The sample job, failed.
abbrev pub failed_sample : ProcessingJob
failed_sample = record sample_job {
  status = failed;
  completed_at = some 1000000000;
  error_message = some "broken";
}

pub queued_edge : is_transition_allowed queued failed ≡ true
unfolding is_transition_allowed
queued_edge = refl

abbrev pub completed_sample : ProcessingJob
completed_sample = record sample_job { status = completed; completed_at = some 1000000000 }

-- A claim of two minutes ago is stale for a limit of a minute and a half.
pub busy_stale : is_claimable 900000000 busy_job ≡ true
unfolding is_claimable
busy_stale = refl

pub scheduled_ok :
    (try_schedule memory memory_settings sample_job sample_event fresh_world).0 ≡ ok true
unfolding processed
scheduled_ok = refl

-- An entry that decodes, and one without a payload.
abbrev pub two_messages : Messages
two_messages = ("1", (("data", "0") ∷ [])) ∷ ("2", []) ∷ []

pub decoded_ok :
    (decode_messages memory memory_settings two_messages [] fresh_world).0 ≡ ok (delivered ∷ [])
unfolding decode_messages deliver_or_drop decode_one ack processed field_value count_or_one
decoded_ok = refl

pub memory_delays : DelayLaws memory
unfolding memory
memory_delays = record {
  IsFinite = λ x. Unit;
  IsNumber = λ x. Unit;
  finite_number = λ x h. tt;
  zero_finite = tt;
  between_finite = λ lo x hi _ _ _ _. tt;
  leq_refl = λ x _. ground arith;
  leq_total = λ x y _ _ h. ground arith;
  leq_trans = λ x y z h k. ground arith;
  add_number = λ x y _ _. tt;
  add_mono = λ c x y _ _ _ h. ground arith;
  add_nonneg = λ x y _ _ h k. ground arith;
  mul_nonneg = λ x y _ _ h k. ground arith;
  mul_fraction = λ x y _ h k l. fraction x y l;
  of_int_finite = λ n x h. tt;
  of_int_nonneg = λ n x h. ground arith;
  neg_finite = λ x _. tt;
  neg_leq = λ x _ h. ground arith;
  uniform_geq = λ lo hi e _ _ h. leb_refl lo;
  uniform_leq = λ lo hi e _ _ h. h;
}
  where
    leb_refl : (x : ℕ) → leb x x ≡ true
    leb_refl x = ground arith

    fraction : (x y : ℕ) → leb y 1 ≡ true → leb (x * y) x ≡ true
    fraction x zero h = ground arith
    fraction x (suc zero) h = ground arith
    fraction x (suc (suc y)) h = absurd (ground arith)

pub settings_delays : AreDelays memory memory_delays memory_settings
unfolding memory memory_settings memory_delays
settings_delays = record {
  base_finite = tt;
  cap_finite = tt;
  ratio_finite = tt;
  base = refl;
  cap = refl;
  ratio = refl;
  fraction = refl;
}

abbrev pub spaced_lines : List String
spaced_lines = "a" ∷ "" ∷ "" ∷ "b" ∷ []
