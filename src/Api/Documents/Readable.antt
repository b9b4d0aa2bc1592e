-- ===== src/Api/Documents/Readable.antt =====
-- An upload to `upload_document` of app/api/routes/documents.py on the storage of
-- app/services/file_storage.py: what the worker will read.
use async_ai_document_pipeli.Prelude.{◌≡◌, ap, subst, ◌∙◌, Option, some, [], String, length}
use async_ai_document_pipeli.Core.Enums.{DocumentType}
use async_ai_document_pipeli.Core.Exec.{Outcome, ok}
use async_ai_document_pipeli.Core.Settings.{Settings}
use async_ai_document_pipeli.Db.Models.{Uuid, StoredFile, Document, ProcessingJob}
use async_ai_document_pipeli.Platform.{Platform, Bytes, Environment}
use async_ai_document_pipeli.Platform.Laws.{DbLaws}
use async_ai_document_pipeli.Platform.World.{World}
use async_ai_document_pipeli.Services.FileStorage.{
  FilePath, Disk, Texts, Store, local_files, save, read,
}
use async_ai_document_pipeli.Services.FileStorage.Restored.{DiskLaws, save-read}
use async_ai_document_pipeli.Api.Documents.{read_within_limit}
use async_ai_document_pipeli.Api.Documents.Queued.{upload_document-IsQueued}
use async_ai_document_pipeli.Api.Documents.Upload.{
  UploadFile, UploadAcceptedResponse, upload_document,
}

-- A platform whose storage is the local one.
abbrev pub with_local_files :
    (p : Platform) {D E F : Type 0} → Disk D → Environment E F → Texts → FilePath → Platform
with_local_files p {D} {E} disk env texts root = record p {
  Storage = Store D E;
  files = local_files disk env texts root;
}

module _ (p : Platform) {D E F : Type 0} (disk : Disk D) (env : Environment E F) (texts : Texts)
    (root : FilePath) (disk_laws : DiskLaws disk) where
  abbrev local : Platform
  local = with_local_files p disk env texts root

  module _ (settings : Settings p.Float) (correlation_id : Option String) (url_for : Uuid → String)
      (laws : DbLaws local) where
    -- The row of the job, and the content that its storage path names.
    pub record IsReadable (file : UploadFile) (response : UploadAcceptedResponse)
        (after : World local) : Type 0 where
      pub job : ProcessingJob
      pub bytes : Bytes
      pub row : p.db.job after.db response.job_id ≡ some job
      pub received : read_within_limit p.float settings file.chunks ≡ ok bytes
      pub content :
          read disk env texts root job.document.storage_path after.storage
          ≡ (ok bytes, after.storage)
      pub sized : job.document.file_size ≡ length bytes
      pub summed : job.document.checksum ≡ texts.sha256_hex bytes

    -- If an upload on the local storage returns with nothing pending before, then the storage
    -- path in the row of the returned job names a file that can be read and holds exactly the
    -- bytes that were received, and the row has their number and their digest, as long as the
    -- disk is used by no one else.
    pub upload_document-IsReadable :
        (file : UploadFile) (document_type : Option DocumentType)
        (response : UploadAcceptedResponse) (w : World local)
        → w.session ≡ []
        → (upload_document local settings correlation_id url_for file document_type w).0
          ≡ ok response
        → IsReadable file response
            (upload_document local settings correlation_id url_for file document_type w).1
    upload_document-IsReadable file document_type response w clean h =
        let after =
          (upload_document local settings correlation_id url_for file document_type w).1 in
        let q =
          upload_document-IsQueued local settings correlation_id url_for laws file document_type
            response w clean h in
        let saved = save disk env texts root q.bytes q.extension w.storage in
        let stores : saved.0 ≡ ok q.stored =
          ap (λ (r : Outcome StoredFile × Store D E). r.0) q.saved in
        let ends : saved.1 ≡ after.storage =
          ap (λ (r : Outcome StoredFile × Store D E). r.1) q.saved in
        let (size, sum, content) =
          save-read disk env texts root disk_laws q.bytes q.extension w.storage q.stored stores in
        let document = q.made.of_document in
        let placed : q.job.document.storage_path ≡ q.stored.storage_path =
          ap (λ (d : Document). d.storage_path) document ∙ q.made.placed in
        record {
          job = q.job;
          bytes = q.bytes;
          row = q.row;
          received = q.received;
          content = rw placed (
              subst (λ s. read disk env texts root q.stored.storage_path s ≡ (ok q.bytes, s)) ends
                content);
          sized = ap (λ (d : Document). d.file_size) document ∙ q.made.sized ∙ size;
          summed = ap (λ (d : Document). d.checksum) document ∙ q.made.summed ∙ sum;
        }
