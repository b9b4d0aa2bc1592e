-- ===== src/Samples/Uploads.antt =====
-- An upload of a text file to the platform in memory, and an empty one.
use async_ai_document_pipeli.Prelude.{◌≡◌, refl, none, some, [], ◌∷◌, String}
use async_ai_document_pipeli.Core.Enums.{queued}
use async_ai_document_pipeli.Core.Errors.{app_exn, unsupported_file_type}
use async_ai_document_pipeli.Core.Exec.{ok, raised}
use async_ai_document_pipeli.Core.Paths.{suffix}
use async_ai_document_pipeli.Platform.Refresh.{refresh, refresh_document}
use async_ai_document_pipeli.Platform.World.{select_job, utcnow, uuid4, stage, commit}
use async_ai_document_pipeli.Services.FileValidation.{
  validate_sanitized, validate_extension, extract_extension, validate_content_type, declared_type,
  validate_size, validate_magic_bytes,
}
use async_ai_document_pipeli.Services.FileValidation.Filename.{sanitize_filename}
use async_ai_document_pipeli.Services.FileValidation.Upload.{validate_upload}
use async_ai_document_pipeli.Services.JobService.Creation.{create_document_and_job}
use async_ai_document_pipeli.Services.Publisher.{build_event, publish_job}
use async_ai_document_pipeli.Services.Queue.{command, client}
use async_ai_document_pipeli.Services.Queue.Producing.{publish, to_stream_fields}
use async_ai_document_pipeli.Services.TextExtraction.{strip}
use async_ai_document_pipeli.Api.Documents.{read_within_limit, read_chunks}
use async_ai_document_pipeli.Api.Documents.Upload.{
  UploadFile, UploadAcceptedResponse, upload_document,
}
use async_ai_document_pipeli.Api.Documents.Queued.{verdict}
use async_ai_document_pipeli.Api.Publishing.{publish_or_fail}
use async_ai_document_pipeli.Samples.Memory.{memory, memory_settings, world_with}
use async_ai_document_pipeli.Samples.Runs.{fresh_world}

abbrev pub text_file : UploadFile
text_file = record {
  filename = some "a.txt";
  content_type = some "text/plain";
  chunks = (104 ∷ []) ∷ [];
}

abbrev pub empty_file : UploadFile
empty_file = record { filename = some "a.txt"; content_type = some "text/plain"; chunks = [] }

pub validated :
    validate_upload memory.parsers memory.float memory_settings
      (some "a.txt")
      (some "text/plain")
      (104 ∷ [])
    ≡ ok ("a.txt", ".txt")
unfolding validate_upload sanitize_filename validate_sanitized validate_extension extract_extension
    validate_content_type declared_type validate_size validate_magic_bytes memory memory_settings
    suffix strip
validated = refl

pub refused :
    verdict memory memory_settings none (λ _. "") empty_file
    ≡ raised (app_exn unsupported_file_type "The uploaded file is empty.")
unfolding read_within_limit read_chunks validate_upload sanitize_filename validate_sanitized
    validate_extension extract_extension validate_content_type declared_type validate_size
    validate_magic_bytes memory memory_settings suffix strip
refused = refl

abbrev pub accepted_response : UploadAcceptedResponse
accepted_response = record { document_id = 1000; job_id = 1001; status = queued; status_url = "" }

pub uploaded :
    (upload_document memory memory_settings none (λ _. "") text_file none fresh_world).0
    ≡ ok accepted_response
unfolding upload_document read_within_limit read_chunks validate_upload sanitize_filename
    validate_sanitized validate_extension extract_extension validate_content_type declared_type
    validate_size validate_magic_bytes memory memory_settings suffix strip world_with
    create_document_and_job uuid4 utcnow stage commit refresh refresh_document select_job
    publish_or_fail publish_job build_event publish command client to_stream_fields
uploaded = refl

-- Names as clients send them.
abbrev sanitized : String → String
sanitized name = sanitize_filename memory.parsers (some name)

names :
    (sanitized "..\\..\\evil.pdf" ≡ "evil.pdf")
    × (sanitized "../a b.txt" ≡ "a b.txt")
    × (sanitized "C:x.txt" ≡ "x.txt")
    × (sanitized "\\\\srv\\share\\f.txt" ≡ "f.txt")
    × (sanitized "a--_b.pdf" ≡ "a_b.pdf")
    × (sanitized " ._" ≡ "document")
    × (sanitized "x<y>.txt" ≡ "x_y_.txt")
unfolding sanitize_filename memory
names = (refl, refl, refl, refl, refl, refl, refl)
