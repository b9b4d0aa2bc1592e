-- ===== src/Api/Documents.antt =====
-- `_read_within_limit` of app/api/routes/documents.py. An upload is the chunks that its reads will return; a
-- read at the end returns an empty one.
pub mod Limit
pub mod Upload
pub mod Queued
pub mod Readable
use async_ai_document_pipeli.Prelude.{ℕ, ◌+◌, true, false, List, [], ◌∷◌, ◌++◌, ◌==◌, ltb, length}
use async_ai_document_pipeli.Core.Errors.{file_too_large, app_exn}
use async_ai_document_pipeli.Core.Exec.{Outcome, ok, raised}
use async_ai_document_pipeli.Core.Settings.{Settings}
use async_ai_document_pipeli.Platform.{Bytes, Floats}
use async_ai_document_pipeli.Services.FileValidation.{too_large}

abbrev pub after_chunk : Bytes → Outcome Bytes → Outcome Bytes
after_chunk chunk (ok rest) = ok (chunk ++ rest)
after_chunk chunk (raised e) = raised e

module _ {F : Type 0} (float : Floats F) (settings : Settings F) where
  -- The loop, with the bytes that were read so far.
  unfoldable pub read_chunks : ℕ → List Bytes → Outcome Bytes
  read_chunks total [] = ok []
  read_chunks total (chunk ∷ chunks) = elim (length chunk == 0) [
    | true ↦ ok []
    | false ↦ elim (ltb settings.max_upload_bytes (total + length chunk)) [
      | true ↦ raised (app_exn file_too_large (too_large float settings))
      | false ↦ after_chunk chunk (read_chunks (total + length chunk) chunks)
    ]
  ]

  unfoldable pub read_within_limit : List Bytes → Outcome Bytes
  read_within_limit chunks = read_chunks 0 chunks
