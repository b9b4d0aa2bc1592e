-- ===== src/Api/Documents/Upload.antt =====
-- `upload_document` of app/api/routes/documents.py.
use async_ai_document_pipeli.Prelude.{Option, none, some, List, String, is_empty, if◌then◌else◌}
use async_ai_document_pipeli.Core.Enums.{JobStatus, DocumentType}
use async_ai_document_pipeli.Core.Exec.{Exec, pure, ◌>>=◌, ◌>>◌}
use async_ai_document_pipeli.Core.Settings.{Settings}
use async_ai_document_pipeli.Db.Models.{Uuid}
use async_ai_document_pipeli.Platform.{Platform, Bytes}
use async_ai_document_pipeli.Platform.World.{World, lift, on_storage}
use async_ai_document_pipeli.Services.FileValidation.Upload.{validate_upload}
use async_ai_document_pipeli.Services.JobService.Creation.{create_document_and_job}
use async_ai_document_pipeli.Api.Documents.{read_within_limit}
use async_ai_document_pipeli.Api.Publishing.{publish_or_fail}

-- Starlette's `UploadFile`: the parts that the client names, and what its reads return.
pub record UploadFile : Type 0 where
  pub filename : Option String
  pub content_type : Option String
  pub chunks : List Bytes

-- `UploadAcceptedResponse`
pub record UploadAcceptedResponse : Type 0 where
  pub document_id : Uuid
  pub job_id : Uuid
  pub status : JobStatus
  pub status_url : String

-- `file.content_type or "application/octet-stream"`
abbrev pub content_type_or_default : Option String → String
content_type_or_default none = "application/octet-stream"
content_type_or_default (some given) = if is_empty given then "application/octet-stream" else given

abbrev pub not_queued_message : String
not_queued_message = "The document could not be queued for processing."

-- `url_for` is the address of a job's status, which the framework computes.
module _ (p : Platform) (settings : Settings p.Float) (correlation_id : Option String)
    (url_for : Uuid → String) where
  unfoldable pub upload_document :
      UploadFile → Option DocumentType → Exec (World p) UploadAcceptedResponse
  upload_document file document_type = do
    bytes ← lift (read_within_limit p.float settings file.chunks)
    checked ←
        lift (validate_upload p.parsers p.float settings file.filename file.content_type bytes)
    stored ← on_storage (p.files.save bytes checked.1)
    made ←
        create_document_and_job stored checked.0 (content_type_or_default file.content_type)
          document_type settings.max_retries
    publish_or_fail p settings correlation_id made.1 not_queued_message
    pure record {
      document_id = made.0.id;
      job_id = made.1.id;
      status = made.1.status;
      status_url = url_for made.1.id;
    }
