-- ===== src/Samples/Local.antt =====
-- The platform in memory with the local storage on a disk in memory, and an upload to it.
use async_ai_document_pipeli.Prelude.{◌≡◌, refl, none, [], true, show_int}
use async_ai_document_pipeli.Core.Exec.{ok}
use async_ai_document_pipeli.Core.Paths.{suffix}
use async_ai_document_pipeli.Platform.{Platform}
use async_ai_document_pipeli.Platform.Laws.{DbLaws}
use async_ai_document_pipeli.Platform.Refresh.{refresh, refresh_document}
use async_ai_document_pipeli.Platform.World.{select_job, World, utcnow, uuid4, stage, commit}
use async_ai_document_pipeli.Services.FileStorage.{save, resolve, contained, path_eq, parents}
use async_ai_document_pipeli.Services.FileValidation.{
  validate_sanitized, validate_extension, extract_extension, validate_content_type, declared_type,
  validate_size, validate_magic_bytes,
}
use async_ai_document_pipeli.Services.FileValidation.Filename.{sanitize_filename}
use async_ai_document_pipeli.Services.FileValidation.Upload.{validate_upload}
use async_ai_document_pipeli.Services.JobService.Creation.{create_document_and_job}
use async_ai_document_pipeli.Services.Publisher.{build_event, publish_job}
use async_ai_document_pipeli.Services.Queue.{command, client}
use async_ai_document_pipeli.Services.Queue.Producing.{publish, to_stream_fields}
use async_ai_document_pipeli.Services.TextExtraction.{strip}
use async_ai_document_pipeli.Api.Documents.{read_within_limit, read_chunks}
use async_ai_document_pipeli.Api.Documents.Readable.{with_local_files}
use async_ai_document_pipeli.Api.Documents.Upload.{upload_document}
use async_ai_document_pipeli.Api.Publishing.{publish_or_fail}
use async_ai_document_pipeli.Samples.Memory.{
  memory, memory_laws, memory_settings, clock, world_with,
}
use async_ai_document_pipeli.Samples.Runs.{fresh_world}
use async_ai_document_pipeli.Samples.Storage.{disk_in_memory, plain_texts, root, empty_disk}
use async_ai_document_pipeli.Samples.Uploads.{text_file, accepted_response}

abbrev pub local_memory : Platform
local_memory = with_local_files memory disk_in_memory clock plain_texts root

pub local_laws : DbLaws local_memory
local_laws = record {
  job_key = memory_laws.job_key;
  select_reads = memory_laws.select_reads;
  select_keeps_job = memory_laws.select_keeps_job;
  select_keeps_result = memory_laws.select_keeps_result;
  commit_job = memory_laws.commit_job;
  commit_result = memory_laws.commit_result;
  commit_atomic = memory_laws.commit_atomic;
  duplicate_key = memory_laws.duplicate_key;
  integrity_job = memory_laws.integrity_job;
}

abbrev pub local_world : World local_memory
local_world = record {
  db = fresh_world.db;
  session = [];
  connected = true;
  registered = true;
  redis = fresh_world.redis;
  processed = 0;
  storage = empty_disk;
  llm = fresh_world.llm;
  env = fresh_world.env;
}

pub uploaded_locally :
    (upload_document local_memory memory_settings none (λ _. "") text_file none local_world).0
    ≡ ok accepted_response
unfolding upload_document read_within_limit read_chunks validate_upload sanitize_filename
    validate_sanitized validate_extension extract_extension validate_content_type declared_type
    validate_size validate_magic_bytes memory memory_settings suffix strip world_with
    create_document_and_job uuid4 utcnow stage commit refresh refresh_document select_job
    publish_or_fail publish_job build_event publish command client to_stream_fields save resolve
    contained path_eq parents show_int
uploaded_locally = refl
