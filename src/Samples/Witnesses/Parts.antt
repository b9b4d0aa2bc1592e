-- ===== src/Samples/Witnesses/Parts.antt =====
-- The theorems on the other parts, at concrete inputs over the platform in memory.
use Prim.Native.Nat.{◌^◌}
use async_ai_document_pipeli.Api.Documents.{read_within_limit}
use async_ai_document_pipeli.Api.Documents.Limit.{read_within_limit-total, content}
use async_ai_document_pipeli.Services.FileValidation.{too_large}
use async_ai_document_pipeli.Core.Errors.{file_too_large, app_exn}
use async_ai_document_pipeli.Prelude.{List, length, map}
use async_ai_document_pipeli.Platform.{Bytes}
use async_ai_document_pipeli.Samples.Requests.{
  failed_world, failed_session, requeued_job, retried, offline_world, offline_session,
  offline_found, not_connected, offline_raises, not_connected-IsQueueError, unqueued_job,
  offline_marked,
}
use async_ai_document_pipeli.Api.Jobs.{retry_job}
use async_ai_document_pipeli.Api.Jobs.Retried.{retry_job-queued}
use async_ai_document_pipeli.Api.Publishing.{publish_or_fail}
use async_ai_document_pipeli.Api.Publishing.Settled.{publish_or_fail-raised, InStream}
use async_ai_document_pipeli.Prelude.{
  ◌≤◌, ◌<◌, ◌≡◌, ◌⊎◌, ◌↔◌, true, false, some, none, [], ◌∷◌, String, len, ◌⊕◌,
}
use async_ai_document_pipeli.Core.Enums.{queued, failed}
use async_ai_document_pipeli.Core.Errors.{llm_timeout, retryable, retryable_error}
use async_ai_document_pipeli.Core.Errors.Hierarchy.{retryable_iff, DerivesFrom, IsTransientLlm}
use async_ai_document_pipeli.Core.Exec.{ok, raised}
use async_ai_document_pipeli.Db.Models.{ProcessingJob}
use async_ai_document_pipeli.Services.JobService.Marks.{Moved}
use async_ai_document_pipeli.Services.Queue.Consuming.{decode_messages}
use async_ai_document_pipeli.Services.Queue.Decoding.{decode_messages-ok, decodable, poison_acked}
use async_ai_document_pipeli.Services.TextExtraction.{truncate, collapse, nonempty}
use async_ai_document_pipeli.Services.TextExtraction.Normal.{
  truncate-bounds, collapse_correct, SpacedFrom, blank_runs, single,
}
use async_ai_document_pipeli.Worker.RetryPolicy.{compute_delay, capped_at, overflow_error}
use async_ai_document_pipeli.Worker.RetryPolicy.Delay.{compute_delay_bounds, IsWithin}
use async_ai_document_pipeli.Samples.Memory.{memory, memory_laws, memory_settings, sample_job}
use async_ai_document_pipeli.Samples.Runs.{
  delivered, fresh_world, two_messages, decoded_ok, memory_delays, settings_delays, spaced_lines,
}

decode_messages-ok_example :
    (delivered ∷ [] ≡ decodable memory.codec [] two_messages)
    × ((decode_messages memory memory_settings two_messages [] fresh_world).1.redis
        ≡ poison_acked memory memory_settings two_messages fresh_world.redis)
    × ((decode_messages memory memory_settings two_messages [] fresh_world).1.db ≡ fresh_world.db)
decode_messages-ok_example =
    decode_messages-ok memory memory_settings two_messages [] fresh_world (delivered ∷ [])
      decoded_ok

compute_delay_bounds_example :
    ((memory.float.of_int (2 ^ 2) ≡ none)
      × (compute_delay memory 2 memory_settings fresh_world ≡ (raised overflow_error, fresh_world)))
    ⊎ ((factor : memory.Float) × (memory.float.of_int (2 ^ 2) ≡ some factor)
        × ((delay : memory.Float) × ((compute_delay memory 2 memory_settings fresh_world).0
              ≡ ok delay)
            × IsWithin memory memory_settings
                (capped_at memory.float factor memory_settings)
                delay))
compute_delay_bounds_example =
    compute_delay_bounds memory memory_delays memory_settings settings_delays 2 fresh_world

truncate-bounds_example :
    (len "abc" ≤ 2) × (truncate "abc" 2 ≡ ("abc", false))
    ⊎ (2 < len "abc")
      × ((truncate "abc" 2).1 ≡ true)
      × (len (truncate "abc" 2).0 ≡ 2)
      × ((rest : String) × ((truncate "abc" 2).0 ⊕ rest ≡ "abc"))
truncate-bounds_example = truncate-bounds "abc" 2

collapse_correct_example :
    SpacedFrom false (collapse 0 spaced_lines)
    × (nonempty (collapse 0 spaced_lines) ≡ nonempty spaced_lines)
    × (blank_runs 0 (collapse 0 spaced_lines) ≡ map single (blank_runs 0 spaced_lines))
collapse_correct_example = collapse_correct spaced_lines

retryable_iff_example :
    (retryable llm_timeout ≡ true)
    ↔ (DerivesFrom llm_timeout retryable_error ⊎ IsTransientLlm llm_timeout)
retryable_iff_example = retryable_iff llm_timeout

retry_job-queued_example :
    (job : ProcessingJob) × (memory.db.job failed_world.db 7 ≡ some job)
    × (job.status ≡ failed)
    × (memory.db.job (retry_job memory memory_settings none 7 failed_world).1.db 7
        ≡ some requeued_job)
    × (requeued_job.status ≡ queued)
    × (requeued_job.retry_count ≡ 0)
    × InStream memory memory_settings none requeued_job failed_world.redis
        (retry_job memory memory_settings none 7 failed_world).1.redis
retry_job-queued_example =
    retry_job-queued memory memory_settings none memory_laws 7 requeued_job failed_world
      failed_session retried

publish_or_fail-raised_example :
    ((publish_or_fail memory memory_settings none sample_job "lost" offline_world).0
      ≡ raised not_connected)
    × Moved memory
        (publish_or_fail memory memory_settings none sample_job "lost" offline_world).1.db
        sample_job
        unqueued_job
        failed
publish_or_fail-raised_example =
    publish_or_fail-raised memory memory_settings none sample_job "lost" offline_world memory_laws
      not_connected unqueued_job offline_session offline_found offline_raises
      not_connected-IsQueueError offline_marked

abbrev two_chunks : List Bytes
two_chunks = (104 ∷ []) ∷ (105 ∷ []) ∷ []

read_within_limit-total_example :
    (length (content two_chunks) ≤ memory_settings.max_upload_bytes)
      × (read_within_limit memory.float memory_settings two_chunks ≡ ok (content two_chunks))
    ⊎ (memory_settings.max_upload_bytes < length (content two_chunks))
      × (read_within_limit memory.float memory_settings two_chunks
          ≡ raised (app_exn file_too_large (too_large memory.float memory_settings)))
read_within_limit-total_example = read_within_limit-total memory.float memory_settings two_chunks
