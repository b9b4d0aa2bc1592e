-- ===== src/Samples/Witnesses/Endpoints.antt =====
-- The theorems on the system, the endpoints and the uploads, at concrete inputs.
use async_ai_document_pipeli.Prelude.{
  ℕ, ◌+◌, ◌≡◌, refl, ◌⊎◌, ◌↔◌, ◌≤◌, ◌<◌, none, some, List, [], ◌∷◌, arith,
}
use async_ai_document_pipeli.Core.Enums.{JobStatus, queued, processing, retrying, completed, failed}
use async_ai_document_pipeli.Core.Errors.{Exn, app_exn, unsupported_file_type}
use async_ai_document_pipeli.Core.Exec.{Exec, ok, raised, pure}
use async_ai_document_pipeli.Db.Connection.{wait_for_database}
use async_ai_document_pipeli.Db.Connection.Waited.{attempted, wait_for_database-answers}
use async_ai_document_pipeli.Db.Models.{end}
use async_ai_document_pipeli.Llm.Factory.{BuiltProvider}
use async_ai_document_pipeli.Platform.World.{World}
use async_ai_document_pipeli.Api.Documents.Upload.{upload_document}
use async_ai_document_pipeli.Api.Documents.Queued.{
  upload_document-refused, upload_document-IsQueued, IsQueued,
}
use async_ai_document_pipeli.Api.Handlers.{answer_error, answer_error-IsError, Hidden}
use async_ai_document_pipeli.Api.Health.{Readiness, ready}
use async_ai_document_pipeli.Api.Health.Ready.{DriverErrors, AllAnswer, ready-exact}
use async_ai_document_pipeli.Services.FileValidation.Upload.{IsAccepted, validate_upload-IsAccepted}
use async_ai_document_pipeli.Services.Metrics.{Queries, summary_of}
use async_ai_document_pipeli.Services.Metrics.Tallied.{
  IsGrouped, count_in, rows_of, summary_of-Tallied,
}
use async_ai_document_pipeli.Services.Queue.{QueueDepth, close}
use async_ai_document_pipeli.System.{SystemReach, SystemStep, Survives, system-Survives}
use async_ai_document_pipeli.Worker.Consumer.{handle}
use async_ai_document_pipeli.Worker.Main.{
  main, start, refused_start, aclose, dispose_engine, exception_group, main-settled,
}
use async_ai_document_pipeli.Api.Documents.Readable.{IsReadable, upload_document-IsReadable}
use async_ai_document_pipeli.Samples.Local.{local_memory, local_laws, local_world, uploaded_locally}
use async_ai_document_pipeli.Samples.Storage.{
  disk_in_memory, disk_in_memory_laws, plain_texts, root,
}
use async_ai_document_pipeli.Samples.Memory.{
  clock, memory, memory_laws, memory_settings, sample_job,
}
use async_ai_document_pipeli.Samples.Runs.{
  delivered, fresh_world, fresh_session, fresh_found, timeout,
}
use async_ai_document_pipeli.Samples.Uploads.{
  text_file, empty_file, validated, refused, uploaded, accepted_response,
}

system-Survives_example :
    Survives memory (handle memory memory_settings "w" delivered fresh_world).1.db 7 sample_job
system-Survives_example =
    system-Survives memory memory_laws memory_settings fresh_world.db
      (handle memory memory_settings "w" delivered fresh_world).1.db 7 sample_job
      (SystemReach.then_step SystemReach.at_start (SystemStep.handles "w" delivered fresh_world))
      fresh_found

validate_upload-IsAccepted_example :
    IsAccepted memory.parsers memory.float memory_settings "a.txt" ".txt"
      (some "text/plain")
      (104 ∷ [])
validate_upload-IsAccepted_example =
    validate_upload-IsAccepted memory.parsers memory.float memory_settings (some "a.txt")
      (some "text/plain") (104 ∷ []) "a.txt" ".txt" validated

upload_document-refused_example :
    upload_document memory memory_settings none (λ _. "") empty_file none fresh_world
    ≡ (raised (app_exn unsupported_file_type "The uploaded file is empty."), fresh_world)
upload_document-refused_example =
    upload_document-refused memory memory_settings none (λ _. "") empty_file none
      (app_exn unsupported_file_type "The uploaded file is empty.") fresh_world refused

upload_document-IsQueued_example :
    IsQueued memory memory_settings none
      (λ _. "")
      text_file
      none
      fresh_world
      accepted_response
      (upload_document memory memory_settings none (λ _. "") text_file none fresh_world).1
upload_document-IsQueued_example =
    upload_document-IsQueued memory memory_settings none (λ _. "") memory_laws text_file none
      accepted_response fresh_world fresh_session uploaded

database_up : (memory.db.ping (attempted memory 0 fresh_world.db)).0 ≡ ok tt
unfolding memory attempted
database_up = refl

attempts_left : 0 < memory_settings.db_connect_max_attempts
unfolding memory_settings
attempts_left = omega arith

wait_for_database-answers_example :
    wait_for_database memory memory_settings fresh_world
    ≡ (ok tt, record fresh_world { db = attempted memory 1 fresh_world.db })
wait_for_database-answers_example =
    wait_for_database-answers memory memory_settings 0 fresh_world attempts_left tt database_up

memory_errors : DriverErrors memory
unfolding memory
memory_errors = record { of_database = λ db e h. cc; of_redis = λ r e h. cc }

ready-exact_example :
    (answer : Readiness) × ((ready memory fresh_world).0 ≡ ok answer)
    × ((answer.status_code ≡ 200) ↔ AllAnswer memory memory_errors fresh_world)
    × ((answer.status_code ≡ 200) ⊎ (answer.status_code ≡ 503))
ready-exact_example = ready-exact memory memory_errors fresh_world

answer_error-IsError_example :
    (400 ≤ (answer_error timeout end none).status_code)
    × ((answer_error timeout end none).status_code < 600)
    × Hidden timeout
answer_error-IsError_example = answer_error-IsError timeout end none

abbrev sample_queries : Queries memory.Db memory.Float
sample_queries = record {
  status_counts = λ db. (ok [], db);
  average_duration = λ db. (ok none, db);
  created_since = λ _ db. (ok 0, db);
  rounded_ratio = λ _ _. memory.float.zero_f;
}

abbrev no_depth : QueueDepth
no_depth = record { stream_length = 0; pending = 0; scheduled_retries = 0 }

abbrev group_rows : List (JobStatus × ℕ)
group_rows = (queued, 1) ∷ []

one-IsGrouped : IsGrouped group_rows (sample_job ∷ [])
unfolding rows_of count_in
one-IsGrouped queued = refl
one-IsGrouped processing = refl
one-IsGrouped retrying = refl
one-IsGrouped completed = refl
one-IsGrouped failed = refl

summary_of-Tallied_example :
    let summary = summary_of memory sample_queries memory_settings group_rows none 0 no_depth in
    (summary.total_jobs ≡ 1)
    × (summary.queued_jobs ≡ count_in queued (sample_job ∷ []))
    × (summary.processing_jobs ≡ count_in processing (sample_job ∷ []))
    × (summary.retrying_jobs ≡ count_in retrying (sample_job ∷ []))
    × (summary.completed_jobs ≡ count_in completed (sample_job ∷ []))
    × (summary.failed_jobs ≡ count_in failed (sample_job ∷ []))
    × ((summary.approximate_success_rate ≡ none)
        ↔ (count_in completed (sample_job ∷ []) + count_in failed (sample_job ∷ []) ≡ 0))
summary_of-Tallied_example =
    summary_of-Tallied memory sample_queries memory_settings group_rows (sample_job ∷ []) none 0
      no_depth one-IsGrouped

-- The consumer has ended with a timeout.
abbrev failing_loops : BuiltProvider → World memory → List Exn × World memory
failing_loops provider w = (timeout ∷ [], w)

abbrev closed : Exec (World memory) (Unit {0})
closed = pure tt

main-settled_example :
    ((e : Exn) × ((start memory closed closed memory_settings fresh_world).0 ≡ raised e)
      × (main memory closed closed memory_settings failing_loops fresh_world ≡ (
        refused_start memory closed closed memory_settings failing_loops e,
        (start memory closed closed memory_settings fresh_world).1,
      )))
    ⊎ ((provider : BuiltProvider) × ((start memory closed closed memory_settings fresh_world).0
          ≡ ok provider)
        × (main memory closed closed memory_settings failing_loops fresh_world ≡ (
          raised (exception_group 1),
          (dispose_engine memory closed closed
              (close
                (aclose memory closed closed provider
                  (start memory closed closed memory_settings fresh_world).1).1).1).1,
        )))
main-settled_example = main-settled memory closed closed memory_settings failing_loops fresh_world

upload_document-IsReadable_example :
    IsReadable memory disk_in_memory clock plain_texts root disk_in_memory_laws memory_settings none
      (λ _. "")
      local_laws
      text_file
      accepted_response
      (upload_document local_memory memory_settings none (λ _. "") text_file none local_world).1
upload_document-IsReadable_example =
    upload_document-IsReadable memory disk_in_memory clock plain_texts root disk_in_memory_laws
      memory_settings none (λ _. "") local_laws text_file none accepted_response local_world refl
      uploaded_locally
