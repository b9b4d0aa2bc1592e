-- ===== src/Api/Documents/Queued.antt =====
-- What an upload to `upload_document` of app/api/routes/documents.py leaves behind.
use async_ai_document_pipeli.Prelude.{arith, ◌≡◌, sym, subst, ap, ◌∙◌, Option, some, [], String}
use async_ai_document_pipeli.Core.Enums.{DocumentType}
use async_ai_document_pipeli.Core.Errors.{Exn}
use async_ai_document_pipeli.Core.Exec.{Outcome, ok, raised, pure, ◌>>=◌}
use async_ai_document_pipeli.Core.Exec.Inversion.{>>=-ok, ok-injective}
use async_ai_document_pipeli.Core.Settings.{Settings}
use async_ai_document_pipeli.Db.Models.{Uuid, StoredFile, Document, ProcessingJob}
use async_ai_document_pipeli.Platform.{Platform, Bytes}
use async_ai_document_pipeli.Platform.Laws.{DbLaws}
use async_ai_document_pipeli.Platform.World.{World, lift, on_storage}
use async_ai_document_pipeli.Services.FileValidation.Upload.{
  validate_upload, validate_upload-IsAccepted, IsAccepted,
}
use async_ai_document_pipeli.Services.JobService.Creation.{create_document_and_job}
use async_ai_document_pipeli.Services.JobService.Created.{
  IsNew, create-IsNew, create-redis, create-storage,
}
use async_ai_document_pipeli.Api.Documents.{read_within_limit}
use async_ai_document_pipeli.Api.Documents.Upload.{
  UploadFile, UploadAcceptedResponse, content_type_or_default, not_queued_message, upload_document,
}
use async_ai_document_pipeli.Api.Publishing.{publish_or_fail}
use async_ai_document_pipeli.Api.Publishing.Settled.{InStream, publish_or_fail-ok}

module _ (p : Platform) (settings : Settings p.Float) (correlation_id : Option String)
    (url_for : Uuid → String) where
  -- What the checks of an upload make of it.
  abbrev pub verdict : UploadFile → Outcome (Bytes × String × String)
  verdict file = elim (read_within_limit p.float settings file.chunks) [
    | raised e ↦ raised e
    | ok bytes ↦
        elim (validate_upload p.parsers p.float settings file.filename file.content_type bytes) [
          | raised e ↦ raised e
          | ok (name, extension) ↦ ok (bytes, name, extension)
        ]
  ]

  -- An upload that is too large or that a check refuses raises that error to the client and has
  -- changed nothing: no file is written, no row is inserted, and no event is published.
  pub upload_document-refused :
      (file : UploadFile) (document_type : Option DocumentType) (e : Exn) (w : World p)
      → verdict file ≡ raised e
      → upload_document p settings correlation_id url_for file document_type w ≡ (raised e, w)
  unfolding upload_document
  upload_document-refused file document_type e w h = ground arith

  -- What an accepted upload leaves: the file that was saved first, a queued row that points at it, and
  -- an event of its first attempt.
  pub record IsQueued (file : UploadFile) (document_type : Option DocumentType) (w : World p)
      (response : UploadAcceptedResponse) (after : World p) : Type 0 where
    pub bytes : Bytes
    pub name : String
    pub extension : String
    pub stored : StoredFile
    pub document : Document
    pub job : ProcessingJob
    pub received : read_within_limit p.float settings file.chunks ≡ ok bytes
    pub accepted : IsAccepted p.parsers p.float settings name extension file.content_type bytes
    pub saved : p.files.save bytes extension w.storage ≡ (ok stored, after.storage)
    pub made :
        IsNew document job stored name
          (content_type_or_default file.content_type)
          document_type
          settings.max_retries
    pub row : p.db.job after.db response.job_id ≡ some job
    pub streamed : InStream p settings correlation_id job w.redis after.redis
    pub answered : response ≡ record {
      document_id = document.id;
      job_id = job.id;
      status = job.status;
      status_url = url_for job.id;
    }

  module _ (laws : DbLaws p) (file : UploadFile) (document_type : Option DocumentType)
      (response : UploadAcceptedResponse) (w : World p) where
    abbrev responded : Document × ProcessingJob → UploadAcceptedResponse
    responded made = record {
      document_id = made.0.id;
      job_id = made.1.id;
      status = made.1.status;
      status_url = url_for made.1.id;
    }

    abbrev insert : StoredFile → String → World p → Outcome (Document × ProcessingJob) × World p
    insert stored name =
        create_document_and_job stored name (content_type_or_default file.content_type)
          document_type settings.max_retries

    abbrev publish_made :
        Document × ProcessingJob → World p → Outcome UploadAcceptedResponse × World p
    publish_made made =
        publish_or_fail p settings correlation_id made.1 not_queued_message
        >>= (λ _. pure (responded made))

    abbrev store_and_queue :
        Bytes → String × String → World p → Outcome UploadAcceptedResponse × World p
    store_and_queue bytes checked =
        on_storage (p.files.save bytes checked.1)
        >>= (λ stored. insert stored checked.0 >>= publish_made)

    store_and_queue-IsQueued :
        (bytes : Bytes) (name extension : String)
        → w.session ≡ []
        → read_within_limit p.float settings file.chunks ≡ ok bytes
        → validate_upload p.parsers p.float settings file.filename file.content_type bytes
          ≡ ok (name, extension)
        → (store_and_queue bytes (name, extension) w).0 ≡ ok response
        → IsQueued file document_type w response (store_and_queue bytes (name, extension) w).1
    store_and_queue-IsQueued bytes name extension clean read valid h =
        let (stored, saved, rest, after) =
          >>=-ok (on_storage (p.files.save bytes extension))
            (λ stored. insert stored name >>= publish_made) w h in
        let v = (on_storage (p.files.save bytes extension) w).1 in
        let (made, inserted, rest', after') = >>=-ok (insert stored name) publish_made v rest in
        let u = (insert stored name v).1 in
        let (id, sent, same, after'') =
          >>=-ok (publish_or_fail p settings correlation_id made.1 not_queued_message)
            (λ _. pure (responded made)) u rest' in
        let (fresh, loaded, _) =
          create-IsNew laws stored name (content_type_or_default file.content_type) document_type
            settings.max_retries v made.0 made.1 clean inserted in
        let (streamed, db, storage) =
          publish_or_fail-ok p settings correlation_id made.1 not_queued_message u sent in
        let kept_redis =
          create-redis laws stored name (content_type_or_default file.content_type) document_type
            settings.max_retries v in
        let kept_storage =
          create-storage laws stored name (content_type_or_default file.content_type) document_type
            settings.max_retries v in
        let ends = publish_or_fail p settings correlation_id made.1 not_queued_message u in
        let result : IsQueued file document_type w response ends.1 = record {
          bytes = bytes;
          name = name;
          extension = extension;
          stored = stored;
          document = made.0;
          job = made.1;
          received = read;
          accepted =
              validate_upload-IsAccepted p.parsers p.float settings file.filename file.content_type
                bytes name extension valid;
          saved = λ i. (saved i, sym (storage ∙ kept_storage) i);
          made = fresh;
          row =
              subst (λ (r : UploadAcceptedResponse). p.db.job ends.1.db r.job_id ≡ some made.1)
                (ok-injective same) (ap (λ d. p.db.job d made.1.id) db ∙ loaded);
          streamed =
              subst (λ r. InStream p settings correlation_id made.1 r ends.1.redis) kept_redis
                streamed;
          answered = sym (ok-injective same);
        } in
        rw (after, after', after'') result

    -- If `upload_document` returns with nothing pending before, then the content was read within
    -- the limit and has passed every check, the backend has saved it under the extension, the row
    -- of the returned job is queued, untried and points at that file under the sanitized name,
    -- and Redis has accepted an event of its first attempt and has seen nothing else.
    pub upload_document-IsQueued :
        w.session ≡ []
        → (upload_document p settings correlation_id url_for file document_type w).0 ≡ ok response
        → IsQueued file document_type w response
            (upload_document p settings correlation_id url_for file document_type w).1
    unfolding upload_document
    upload_document-IsQueued clean h =
        let (bytes, read, rest, after) =
          >>=-ok (lift (read_within_limit p.float settings file.chunks))
            (λ bytes.
              lift
                (validate_upload p.parsers p.float settings file.filename file.content_type bytes)
              >>= store_and_queue bytes)
            w h in
        let (checked, valid, rest', after') =
          >>=-ok
            (lift
              (validate_upload p.parsers p.float settings file.filename file.content_type bytes))
            (store_and_queue bytes) w rest in
        rw (after, after')
          (store_and_queue-IsQueued bytes checked.0 checked.1 clean read valid rest')
