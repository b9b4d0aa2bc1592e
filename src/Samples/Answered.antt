-- ===== src/Samples/Answered.antt =====
-- A run of the worker where the job has a result already.
use async_ai_document_pipeli.Prelude.{◌≡◌, refl, none, some, true, false, [], ◌∷◌}
use async_ai_document_pipeli.Core.Enums.{invoice, completed}
use async_ai_document_pipeli.Core.Errors.{isinstance}
use async_ai_document_pipeli.Platform.Laws.{integrity_error}
use async_ai_document_pipeli.Core.Exec.{ok, raised}
use async_ai_document_pipeli.Db.Models.{Json, ProcessingJob}
use async_ai_document_pipeli.Llm.Outputs.{ExtractionOutput}
use async_ai_document_pipeli.Platform.World.{World}
use async_ai_document_pipeli.Services.JobService.Operations.{mark_completed}
use async_ai_document_pipeli.Services.TextExtraction.{truncate}
use async_ai_document_pipeli.Worker.Processor.{
  result_row, missing_greenlet, failed_outcome, persist, handle_failure,
}
use async_ai_document_pipeli.Worker.Processor.Duplicate.{w_added, w_marked}
use async_ai_document_pipeli.Samples.Database.{duplicate}
use async_ai_document_pipeli.Samples.Memory.{
  memory, memory_laws, memory_settings, sample_event, world_with,
}
use async_ai_document_pipeli.Samples.Runs.{busy_job, busy_world, processed}

-- A job that is being processed, with a result that is there already.
abbrev pub sample_output : ExtractionOutput
sample_output = record {
  document_type = invoice;
  data_payload = Json.null;
  model_provider = "fake";
  model_name = "fake-extractor-1";
  prompt_version = "fake-v1";
  input_tokens = none;
  output_tokens = none;
  confidence_score = none;
}

unfoldable pub answered_world : World memory
unfolding memory world_with result_row truncate
answered_world = record busy_world {
  db = record { jobs = busy_job ∷ []; results = result_row 5 busy_job sample_output "hello" ∷ [] };
}

abbrev pub finished_job : ProcessingJob
finished_job = record busy_job {
  status = completed;
  completed_at = some 1000000000;
  processing_duration_ms = some 120000;
}

pub answered_marked :
    (mark_completed false busy_job
      (w_added memory memory_laws memory_settings busy_job sample_output "hello" answered_world)).0
    ≡ ok finished_job
unfolding processed answered_world
answered_marked = refl

abbrev pub answered_marked_world : World memory
answered_marked_world =
    w_marked memory memory_laws memory_settings busy_job sample_output "hello" answered_world

pub answered_refused :
    (memory.db.commit answered_marked_world.session answered_marked_world.db).0 ≡ raised duplicate
unfolding processed answered_world
answered_refused = refl

pub answered_failed :
    (handle_failure memory memory_settings busy_job sample_event missing_greenlet
      (persist memory memory_settings busy_job sample_output "hello" answered_world).1).0
    ≡ ok failed_outcome
unfolding processed answered_world
answered_failed = refl

pub answered_integrity : isinstance duplicate integrity_error ≡ true
unfolding isinstance
answered_integrity = refl
