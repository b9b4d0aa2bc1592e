-- ===== src/Api/Reached.antt =====
-- The endpoints of app/api/routes that write move the committed rows along their lives, whatever fails.
use async_ai_document_pipeli.Prelude.{
  ◌≡◌, refl, sym, ap, subst, ◌∙◌, inl, inr, Bool-cases, Option, some, [], String, arith,
}
use async_ai_document_pipeli.Core.Enums.{DocumentType}
use async_ai_document_pipeli.Core.Errors.{Exn, is_queue_error}
use async_ai_document_pipeli.Core.Exec.{Outcome, ok, pure, raise, ◌>>=◌}
use async_ai_document_pipeli.Core.Settings.{Settings}
use async_ai_document_pipeli.Db.Models.{Uuid, StoredFile, Document, ProcessingJob}
use async_ai_document_pipeli.Platform.{Platform}
use async_ai_document_pipeli.Platform.Laws.{DbLaws}
use async_ai_document_pipeli.Platform.World.{World, lift, on_storage}
use async_ai_document_pipeli.Services.JobService.Advance.{
  Advances, Advances-same, Advances-eq, >>=-Advances, try_except-Advances,
}
use async_ai_document_pipeli.Services.JobService.Advancing.{perform-Advances}
use async_ai_document_pipeli.Services.JobService.Created.{create-IsNew, create-Advances}
use async_ai_document_pipeli.Services.JobService.Creation.{create_document_and_job}
use async_ai_document_pipeli.Services.JobService.Marks.{reset_for_manual_retry-Moved}
use async_ai_document_pipeli.Services.JobService.Operations.{
  get_job, mark_failed, reset_for_manual_retry,
}
use async_ai_document_pipeli.Services.JobService.Refused.{fail, requeue}
use async_ai_document_pipeli.Services.FileValidation.Upload.{validate_upload}
use async_ai_document_pipeli.Services.Publisher.{publish_job}
use async_ai_document_pipeli.Api.Documents.{read_within_limit}
use async_ai_document_pipeli.Api.Documents.Upload.{
  UploadFile, content_type_or_default, not_queued_message, upload_document,
}
use async_ai_document_pipeli.Api.Jobs.{retry_job}
use async_ai_document_pipeli.Api.Jobs.Retried.{get_job-ok}
use async_ai_document_pipeli.Api.Publishing.{publish_or_fail, fail_and_raise}
use async_ai_document_pipeli.Api.Publishing.Settled.{publish_job-db, publish_job-session}

module _ (p : Platform) (laws : DbLaws p) (settings : Settings p.Float)
    (correlation_id : Option String) where
  fail_and_raise-Advances :
      (job : ProcessingJob) (message : String) (e : Exn) (w : World p)
      → w.session ≡ []
      → p.db.job w.db job.id ≡ some job
      → Advances p w.db (fail_and_raise p settings correlation_id job message e w).1.db
  unfolding fail_and_raise
  fail_and_raise-Advances job message e w clean loaded = elim (Bool-cases (is_queue_error e)) [
    | inl queue ↦
        rw (queue, fail_and_raise)
          (>>=-Advances (λ _. raise e) w (mark_failed message job)
            (perform-Advances laws (fail message) job w refl tt clean loaded)
            (λ a h. Advances-eq p refl))
    | inr other ↦ rw (other, fail_and_raise) (Advances-eq p refl)
  ]

  publish_or_fail-Advances :
      (job : ProcessingJob) (message : String) (w : World p)
      → w.session ≡ []
      → p.db.job w.db job.id ≡ some job
      → Advances p w.db (publish_or_fail p settings correlation_id job message w).1.db
  unfolding publish_or_fail
  publish_or_fail-Advances job message w clean loaded =
      let v = (publish_job p settings correlation_id job job.document 0 w).1 in
      let db = publish_job-db p settings correlation_id job message w in
      try_except-Advances (fail_and_raise p settings correlation_id job message) w
        (publish_job p settings correlation_id job job.document 0) (Advances-eq p db)
        (λ e h.
          fail_and_raise-Advances job message e v
            (publish_job-session p settings correlation_id job message w ∙ clean)
            (ap (λ d. p.db.job d job.id) db ∙ loaded))

  get_job-db : (id : Uuid) (w : World p) → (get_job id w).1.db ≡ (p.db.select_job id w.db).1
  unfolding get_job
  get_job-db id w = ground arith

  get_job-Advances : (id : Uuid) (w : World p) → Advances p w.db (get_job id w).1.db
  get_job-Advances id w =
      Advances-same p (λ other.
        ap (λ d. p.db.job d other) (get_job-db id w) ∙ laws.select_keeps_job id other w.db)

  reset-session :
      (job : ProcessingJob) (w : World p) {job' : ProcessingJob}
      → (reset_for_manual_retry job w).0 ≡ ok job'
      → (reset_for_manual_retry job w).1.session ≡ []
  unfolding reset_for_manual_retry
  reset-session job w h = ground arith

  -- The part of a retry after the job is loaded.
  requeue_and_publish-Advances :
      (message : String) (job : ProcessingJob) (w : World p)
      → w.session ≡ []
      → p.db.job w.db job.id ≡ some job
      → Advances p w.db
          ((reset_for_manual_retry job
              >>= (λ r. publish_or_fail p settings correlation_id r message >>= (λ _. pure r)))
            w).1.db
  requeue_and_publish-Advances message job w clean loaded =
      let u = (reset_for_manual_retry job w).1 in
      >>=-Advances (λ r. publish_or_fail p settings correlation_id r message >>= (λ _. pure r)) w
        (reset_for_manual_retry job) (perform-Advances laws requeue job w refl tt clean loaded)
        (λ r h.
          let moved = reset_for_manual_retry-Moved laws job w clean loaded h in
          let stored : p.db.job u.db r.id ≡ some r =
            subst (λ k. p.db.job u.db k ≡ some r) (sym moved.same_key) moved.stored in
          >>=-Advances (λ _. pure r) u (publish_or_fail p settings correlation_id r message)
            (publish_or_fail-Advances r message u (reset-session job w h) stored)
            (λ a g. Advances-eq p refl))

  pub retry_job-Advances :
      (job_id : Uuid) (w : World p)
      → w.session ≡ []
      → Advances p w.db (retry_job p settings correlation_id job_id w).1.db
  unfolding retry_job
  retry_job-Advances job_id w clean =
      let message : String = "The job could not be re-queued for processing." in
      let v = (get_job job_id w).1 in
      >>=-Advances
        (λ job.
          reset_for_manual_retry job
          >>= (λ r. publish_or_fail p settings correlation_id r message >>= (λ _. pure r)))
        w (get_job job_id) (get_job-Advances job_id w)
        (λ job found.
          let (was, loaded, session, _) = get_job-ok laws job_id w found in
          requeue_and_publish-Advances message job v (session ∙ clean) (
            subst (λ k. p.db.job v.db k ≡ some job) (sym (laws.job_key w.db job_id job was))
              loaded))

  module _ (url_for : Uuid → String) (file : UploadFile) (document_type : Option DocumentType) where
    abbrev insert : StoredFile → String → World p → Outcome (Document × ProcessingJob) × World p
    insert stored name =
        create_document_and_job stored name (content_type_or_default file.content_type)
          document_type settings.max_retries

    -- The part of an upload after the file is saved.
    insert_and_publish-Advances :
        {A : Type 0} (f : Document × ProcessingJob → A) (stored : StoredFile) (name : String)
        (w : World p)
        → w.session ≡ []
        → Advances p w.db
            ((insert stored name >>= (λ made.
                publish_or_fail p settings correlation_id made.1 not_queued_message
                >>= (λ _. pure (f made))))
              w).1.db
    insert_and_publish-Advances f stored name w clean =
        let content_type = content_type_or_default file.content_type in
        let u = (insert stored name w).1 in
        >>=-Advances
          (λ made.
            publish_or_fail p settings correlation_id made.1 not_queued_message
            >>= (λ _. pure (f made)))
          w (insert stored name)
          (create-Advances laws stored name content_type document_type settings.max_retries w clean)
          (λ made h.
            let (_, loaded, session) =
              create-IsNew laws stored name content_type document_type settings.max_retries w made.0
                made.1 clean h in
            >>=-Advances (λ _. pure (f made)) u
              (publish_or_fail p settings correlation_id made.1 not_queued_message)
              (publish_or_fail-Advances made.1 not_queued_message u session loaded)
              (λ a g. Advances-eq p refl))

    pub upload_document-Advances :
        (w : World p)
        → w.session ≡ []
        → Advances p w.db
            (upload_document p settings correlation_id url_for file document_type w).1.db
    unfolding upload_document
    upload_document-Advances w clean =
        >>=-Advances _ w (lift (read_within_limit p.float settings file.chunks))
          (Advances-eq p refl)
          (λ bytes read.
            >>=-Advances _ w
              (lift
                (validate_upload p.parsers p.float settings file.filename file.content_type bytes))
              (Advances-eq p refl)
              (λ checked valid.
                >>=-Advances _ w (on_storage (p.files.save bytes checked.1)) (Advances-eq p refl)
                  (λ stored saved.
                    insert_and_publish-Advances _ stored checked.0
                      (on_storage (p.files.save bytes checked.1) w).1 clean)))
