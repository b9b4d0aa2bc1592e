-- ===== src/Worker/Processor/Duplicate.antt =====
-- `_persist` of app/worker/processor.py where the job has a result already.
use async_ai_document_pipeli.Prelude.{
  ◌≡◌, sym, ◌∙◌, ap, true, false, some, [], ◌∷◌, ◌++◌, String, arith, subst,
}
use async_ai_document_pipeli.Core.Enums.{failed}
use async_ai_document_pipeli.Core.Errors.{Exn, isinstance, isinstance_any}
use async_ai_document_pipeli.Core.Exec.{ok, raised}
use async_ai_document_pipeli.Core.Exec.Inversion.{>>=-ok}
use async_ai_document_pipeli.Core.Settings.{Settings}
use async_ai_document_pipeli.Db.Models.{Uuid, ProcessingJob}
use async_ai_document_pipeli.Db.Session.{insert_result}
use async_ai_document_pipeli.Llm.Outputs.{ExtractionOutput}
use async_ai_document_pipeli.Platform.{Platform}
use async_ai_document_pipeli.Platform.Laws.{DbLaws, integrity_error}
use async_ai_document_pipeli.Platform.Refresh.{refresh, refresh-ok}
use async_ai_document_pipeli.Platform.World.{World, commit, rollback, stage}
use async_ai_document_pipeli.Schemas.Events.{Event}
use async_ai_document_pipeli.Services.JobService.Operations.{mark_completed}
use async_ai_document_pipeli.Services.JobService.Marks.{mark_completed-staged}
use async_ai_document_pipeli.Worker.Processor.{
  ProcessingOutcome, failed_outcome, missing_greenlet, result_row, commit_result, persist,
  retry_or_fail, retry_if, handle_failure,
}
use async_ai_document_pipeli.Worker.Processor.Failure.{fail_job-InState}
use async_ai_document_pipeli.Worker.Processor.Recorded.{InState}
use async_ai_document_pipeli.Worker.RetryPolicy.{should_retry, is_retryable}

module _ (p : Platform) (laws : DbLaws p) (settings : Settings p.Float) where
  -- An expired instance fails the job.
  missing_greenlet-fails :
      (job : ProcessingJob) (event : Event) (w : World p) {outcome : ProcessingOutcome}
      → (handle_failure p settings job event missing_greenlet w).0 ≡ ok outcome
      → (outcome ≡ failed_outcome)
        × InState p (handle_failure p settings job event missing_greenlet w).1.db job.id failed
  unfolding handle_failure rollback retry_or_fail retry_if should_retry is_retryable isinstance_any
      isinstance
  missing_greenlet-fails job event w h =
      let w₁ : World p = record w { session = [] } in
      let (fresh, refreshed, rest, after) =
        >>=-ok (refresh job) (λ job'. retry_or_fail p settings job' event missing_greenlet) w₁ h in
      let (found, session, still) = refresh-ok laws job w₁ refreshed in
      let key = laws.job_key w₁.db job.id fresh found in
      let u = (refresh job w₁).1 in
      let (same, state) =
        fail_job-InState p laws settings fresh u session
          (subst (λ k. p.db.job u.db k ≡ some fresh) (sym key) still) _ failed_outcome rest in
      let (row, stored, reached) = state in
      rw after (
        same,
        (
          row,
          subst
              (λ k.
                p.db.job (retry_or_fail p settings fresh event missing_greenlet u).1.db k
                ≡ some row)
              key stored,
          reached,
        ),
      )

  module _ (job : ProcessingJob) (output : ExtractionOutput) (raw_text : String) (w : World p) where
    -- The world when `_persist` has added the result, and when it commits.
    abbrev pub w_added : World p
    w_added = record w {
      session =
          w.session
          ++ insert_result (result_row settings.raw_text_store_max_chars job output raw_text) ∷ [];
    }

    abbrev pub w_marked : World p
    w_marked = (mark_completed false job w_added).1

    persist-raised :
        (e : Exn) (marked : ProcessingJob)
        → (mark_completed false job w_added).0 ≡ ok marked
        → (p.db.commit w_marked.session w_marked.db).0 ≡ raised e
        → isinstance e integrity_error ≡ true
        → ((persist p settings job output raw_text w).0 ≡ raised missing_greenlet)
          × ((persist p settings job output raw_text w).1.db
              ≡ (p.db.commit w_marked.session w_marked.db).1)
    unfolding persist stage commit_result commit rollback
    persist-raised e marked done refused duplicate = ground arith

    -- If the commit of a result raises `IntegrityError`, then `_persist` raises `MissingGreenlet`
    -- and no row of a job or of a result has changed. If `_handle_failure` of that error then
    -- returns, its outcome is `failed` and the row of the job is failed, whatever its attempts.
    pub duplicate_result-fails :
        (e : Exn) (marked : ProcessingJob) (event : Event) {outcome : ProcessingOutcome}
        → (mark_completed false job w_added).0 ≡ ok marked
        → (p.db.commit w_marked.session w_marked.db).0 ≡ raised e
        → isinstance e integrity_error ≡ true
        → (handle_failure p settings job event missing_greenlet
            (persist p settings job output raw_text w).1).0
          ≡ ok outcome
        → ((persist p settings job output raw_text w).0 ≡ raised missing_greenlet)
          × ((id : Uuid)
              → (p.db.job (persist p settings job output raw_text w).1.db id ≡ p.db.job w.db id)
                × (p.db.result (persist p settings job output raw_text w).1.db id
                    ≡ p.db.result w.db id))
          × (outcome ≡ failed_outcome)
          × InState p
              (handle_failure p settings job event missing_greenlet
                (persist p settings job output raw_text w).1).1.db
              job.id
              failed
    duplicate_result-fails e marked event done refused duplicate handled =
        let (raises, ends) = persist-raised e marked done refused duplicate in
        let (_, _, kept) = mark_completed-staged laws job w_added done in
        let (same, state) =
          missing_greenlet-fails job event (persist p settings job output raw_text w).1 handled in
        (
          raises,
          (λ id.
              let (same_job, same_result) =
                laws.integrity_job w_marked.session w_marked.db id e refused duplicate in
              (
                ap (λ db. p.db.job db id) ends ∙ same_job ∙ ap (λ db. p.db.job db id) kept,
                ap (λ db. p.db.result db id) ends ∙ same_result ∙ ap (λ db. p.db.result db id) kept,
              )),
          same,
          state,
        )
