-- ===== src/Worker/Processor.antt =====
-- app/worker/processor.py: one event, from the claim to an outcome that is safe to acknowledge.
pub mod Recorded
pub mod Failure
pub mod Success
pub mod Durable
pub mod Unclaimed
pub mod Scheduled
pub mod Retried
pub mod Duplicate
pub mod Reached
use async_ai_document_pipeli.Prelude.{
  ℕ, Bool, true, false, Option, none, some, [], ◌∷◌, String, ltb, if◌then◌else◌, ◌⊕◌, show_int,
}
use async_ai_document_pipeli.Core.Enums.{DocumentType}
use async_ai_document_pipeli.Core.Errors.{Exn, foreign, isinstance, is_queue_error}
use async_ai_document_pipeli.Core.Exec.{
  Outcome, ok, raised, Exec, pure, raise, ◌>>=◌, ◌>>◌, try_except,
}
use async_ai_document_pipeli.Core.Paths.{suffix}
use async_ai_document_pipeli.Core.Settings.{Settings}
use async_ai_document_pipeli.Db.Models.{ProcessingJob, ExtractionResult}
use async_ai_document_pipeli.Db.Session.{insert_result}
use async_ai_document_pipeli.Llm.Outputs.{ExtractionOutput}
use async_ai_document_pipeli.Schemas.Events.{Event, next_attempt}
use async_ai_document_pipeli.Platform.{Platform}
use async_ai_document_pipeli.Platform.Laws.{integrity_error}
use async_ai_document_pipeli.Platform.World.{
  World, on_storage, on_llm, lift, utcnow, uuid4, stage, commit, rollback,
}
use async_ai_document_pipeli.Platform.Refresh.{refresh}
use async_ai_document_pipeli.Services.JobService.Operations.{
  claim_job, mark_completed, mark_failed, mark_retrying,
}
use async_ai_document_pipeli.Services.Queue.{DeliveredEvent}
use async_ai_document_pipeli.Services.Queue.Producing.{schedule_retry}
use async_ai_document_pipeli.Services.TextExtraction.{extract_text, truncate}
use async_ai_document_pipeli.Worker.RetryPolicy.{compute_delay, should_retry, describe}

pub data ProcessingOutcome : Type 0 where
  completed_outcome skipped retry_scheduled failed_outcome dead_lettered : ProcessingOutcome

-- A rollback expires the loaded instances, and an attribute of one is not loaded again without an await.
abbrev pub missing_greenlet : Exn
missing_greenlet = foreign (record {
  type_name = "MissingGreenlet";
  classes =
      "sqlalchemy.exc.MissingGreenlet" ∷ "sqlalchemy.exc.InvalidRequestError"
      ∷ "sqlalchemy.exc.SQLAlchemyError" ∷ [];
  text =
      "greenlet_spawn has not been called; can't call await_only() here. Was IO attempted in an unexpected place?";
})

-- The row that `_persist` adds.
unfoldable pub result_row : ℕ → ProcessingJob → ExtractionOutput → String → ExtractionResult
unfolding truncate
result_row max_chars job output raw_text = record {
  job_id = job.id;
  detected_document_type = output.document_type;
  extracted_data = output.data_payload;
  raw_text = some (truncate raw_text max_chars).0;
  model_provider = output.model_provider;
  model_name = output.model_name;
  prompt_version = output.prompt_version;
  input_tokens = output.input_tokens;
  output_tokens = output.output_tokens;
  confidence_score = output.confidence_score;
}

abbrev pub redelivered_message : ℕ → String
redelivered_message n =
    "Message redelivered " ⊕ (show_int n ⊕ " times without completing; failed permanently.")

module _ {p : Platform} where
  -- `async with self._sessionmaker() as session`: closing it discards what is pending.
  unfoldable pub with_session {ℓ} : {A : Type ℓ} → Exec (World p) A → Exec (World p) A
  with_session m w = let (r, w') = m (record w { session = [] }) in (r, record w' { session = [] })

  -- `except QueueError` of `_handle_failure`.
  unfoldable pub not_scheduled : Exn → Exec (World p) Bool
  not_scheduled e = elim (is_queue_error e) [ true ↦ pure false | false ↦ raise e ]

module _ (p : Platform) (settings : Settings p.Float) where
  unfoldable pub resolve_type : Event → String → Exec (World p) DocumentType
  resolve_type event text = elim event.requested_document_type [
    | some document_type ↦ pure document_type
    | none ↦ do
      let sample = (truncate text settings.classification_max_chars).0
      classification ← on_llm (p.llm.classify sample)
      pure classification.document_type
  ]

  -- The commit of `_persist`. Where a result is there already, the job is rolled back and its key is read
  -- for the log.
  unfoldable pub commit_result : Exec (World p) (Unit {0})
  commit_result = try_except commit (λ e. elim (isinstance e integrity_error) [
    | true ↦ rollback >> raise missing_greenlet
    | false ↦ raise e
  ])

  unfoldable pub persist : ProcessingJob → ExtractionOutput → String → Exec (World p) (Unit {0})
  persist job output raw_text = do
    stage (insert_result (result_row settings.raw_text_store_max_chars job output raw_text))
    mark_completed false job
    commit_result

  -- `_run` up to the provider's answer, with the text that was extracted.
  unfoldable pub extract_output : ProcessingJob → Event → Exec (World p) (ExtractionOutput × String)
  extract_output job event = do
    bytes ← on_storage (p.files.read event.storage_path)
    text ← lift (extract_text p.parsers bytes (suffix job.document.stored_filename))
    let model_input = (truncate text settings.llm_max_input_chars).0
    document_type ← resolve_type event model_input
    output ← on_llm (p.llm.extract model_input document_type)
    pure (output, text)

  unfoldable pub run : ProcessingJob → Event → Exec (World p) ProcessingOutcome
  run job event = do
    extracted ← extract_output job event
    persist job extracted.0 extracted.1
    pure completed_outcome

  -- `await self._queue.schedule_retry(event.next_attempt(), delay)`
  unfoldable pub schedule_next : Event → p.Float → Exec (World p) Bool
  schedule_next event delay = do
    fresh ← uuid4
    now ← utcnow
    schedule_retry p settings (next_attempt fresh now event) delay
    pure true

  -- The `try` of `_handle_failure`: whether the retry was scheduled.
  unfoldable pub try_schedule : ProcessingJob → Event → Exec (World p) Bool
  try_schedule job event = do
    delay ← compute_delay p job.retry_count settings
    try_except (schedule_next event delay) not_scheduled

  -- `mark_failed`, and the outcome.
  unfoldable pub fail_job :
      String → ProcessingOutcome → ProcessingJob → Exec (World p) ProcessingOutcome
  fail_job message outcome job = do mark_failed message job; pure outcome

  -- `except QueueError`, and the `else` of the `try`.
  unfoldable pub after_schedule : ProcessingJob → String → Bool → Exec (World p) ProcessingOutcome
  after_schedule job message false =
      fail_job (message ⊕ " (retry could not be scheduled)") failed_outcome job
  after_schedule job message true = do mark_retrying message job; pure retry_scheduled

  -- `_handle_failure` from the decision to retry on.
  unfoldable pub retry_if : ProcessingJob → Event → String → Bool → Exec (World p) ProcessingOutcome
  retry_if job event message false = fail_job message failed_outcome job
  retry_if job event message true = try_schedule job event >>= after_schedule job message

  -- `_handle_failure` after the job is read again.
  unfoldable pub retry_or_fail : ProcessingJob → Event → Exn → Exec (World p) ProcessingOutcome
  retry_or_fail job event error =
      retry_if job event (describe error) (should_retry error job.retry_count job.max_retries)

  unfoldable pub handle_failure : ProcessingJob → Event → Exn → Exec (World p) ProcessingOutcome
  handle_failure job event error = do rollback; fresh ← refresh job; retry_or_fail fresh event error

  -- A job that was claimed is dead-lettered, or the failures of its processing are handled.
  unfoldable pub dead_letter_or_run :
      DeliveredEvent → ProcessingJob → Bool → Exec (World p) ProcessingOutcome
  dead_letter_or_run delivered job true =
      fail_job (redelivered_message delivered.delivery_count) dead_lettered job
  dead_letter_or_run delivered job false =
      try_except (run job delivered.event) (handle_failure job delivered.event)

  unfoldable pub process_claimed : DeliveredEvent → ProcessingJob → Exec (World p) ProcessingOutcome
  process_claimed delivered job =
      dead_letter_or_run delivered job (ltb settings.max_delivery_count delivered.delivery_count)

  unfoldable pub after_claim :
      DeliveredEvent → Option ProcessingJob → Exec (World p) ProcessingOutcome
  after_claim delivered none = pure skipped
  after_claim delivered (some job) = process_claimed delivered job

  unfoldable pub process : String → DeliveredEvent → Exec (World p) ProcessingOutcome
  process consumer_name delivered = with_session (
      claim_job delivered.event.job_id consumer_name settings.stale_processing_seconds
      >>= after_claim delivered)
