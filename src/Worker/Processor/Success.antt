-- ===== src/Worker/Processor/Success.antt =====
-- `_run` and `_persist` of app/worker/processor.py: what the database holds when they return.
use async_ai_document_pipeli.Prelude.{
  ◌≡◌, refl, sym, ◌∙◌, false, some, [], ◌∷◌, ◌++◌, String, arith, ==_refl,
}
use async_ai_document_pipeli.Core.Enums.{completed}
use async_ai_document_pipeli.Core.Exec.{ok, pure, ◌>>◌}
use async_ai_document_pipeli.Core.Exec.Inversion.{>>=-ok, ok-injective}
use async_ai_document_pipeli.Core.Settings.{Settings}
use async_ai_document_pipeli.Db.Models.{ProcessingJob, ExtractionResult}
use async_ai_document_pipeli.Db.Session.{update_job, insert_result}
use async_ai_document_pipeli.Llm.Outputs.{ExtractionOutput}
use async_ai_document_pipeli.Platform.{Platform}
use async_ai_document_pipeli.Platform.Laws.{DbLaws}
use async_ai_document_pipeli.Platform.World.{World, commit, rollback, stage}
use async_ai_document_pipeli.Schemas.Events.{Event}
use async_ai_document_pipeli.Services.JobService.{attempt_duration}
use async_ai_document_pipeli.Services.JobService.Operations.{mark_completed, completed_with}
use async_ai_document_pipeli.Services.JobService.Marks.{mark_completed-staged}
use async_ai_document_pipeli.Worker.Processor.{
  ProcessingOutcome, completed_outcome, result_row, commit_result, persist, extract_output,
  resolve_type, run,
}
use async_ai_document_pipeli.Worker.Processor.Recorded.{Stored}

module _ (p : Platform) (laws : DbLaws p) (settings : Settings p.Float) where
  -- If the commit of `_persist` returns, it has applied what was pending.
  commit_result-ok :
      (w : World p)
      → (commit_result p settings w).0 ≡ ok tt
      → ((p.db.commit w.session w.db).0 ≡ ok tt)
        × ((commit_result p settings w).1.db ≡ (p.db.commit w.session w.db).1)
  unfolding commit_result commit rollback
  commit_result-ok w h = ground arith

  module _ (job : ProcessingJob) (output : ExtractionOutput) (raw_text : String) (w : World p) where
    abbrev row : ExtractionResult
    row = result_row settings.raw_text_store_max_chars job output raw_text

    -- The world when `_persist` commits.
    abbrev w_added : World p
    w_added = record w { session = w.session ++ insert_result row ∷ [] }

    abbrev w_marked : World p
    w_marked = (mark_completed false job w_added).1

    abbrev finished : ProcessingJob → ProcessingJob
    finished =
        completed_with (p.env.utcnow w.env).0
          (attempt_duration p.env job.started_at (p.env.utcnow w.env).0)

    finished-completed : (finished job).status ≡ completed
    finished-completed = ground arith

    row-job_id : row.job_id ≡ job.id
    unfolding result_row
    row-job_id = refl

    module _ {db' : p.Db} (committed : (p.db.commit w_marked.session w_marked.db).0 ≡ ok tt)
        (pending : w_marked.session
          ≡ (w.session ++ insert_result row ∷ []) ++ update_job job.id finished ∷ [])
        (db_kept : w_marked.db ≡ w.db) (clean : w.session ≡ []) where
      stored-job :
          p.db.job w.db job.id ≡ some job
          → db' ≡ (p.db.commit w_marked.session w_marked.db).1
          → p.db.job db' job.id ≡ some (finished job)
      stored-job loaded after =
          ground (arith, ==_refl job.id, laws.commit_job w_marked.session w_marked.db job.id)

      stored-result :
          db' ≡ (p.db.commit w_marked.session w_marked.db).1 → p.db.result db' job.id ≡ some row
      unfolding result_row
      stored-result after =
          ground (arith, ==_refl job.id, laws.commit_result w_marked.session w_marked.db job.id)

    persist-Stored :
        w.session ≡ []
        → p.db.job w.db job.id ≡ some job
        → (persist p settings job output raw_text w).0 ≡ ok tt
        → Stored p (persist p settings job output raw_text w).1.db job.id
    unfolding persist stage
    persist-Stored clean loaded h =
        let (job', marked, rest, after) =
          >>=-ok (mark_completed false job) (λ _. commit_result p settings) w_added h in
        let (allowed, session, db) = mark_completed-staged laws job w_added marked in
        let (committed, db_after) = commit_result-ok w_marked rest in
        rw after (
          (finished job, stored-job committed session db clean loaded db_after, finished-completed),
          (row, stored-result committed session db clean db_after, row-job_id),
        )

  pub extract_output-db :
      (job : ProcessingJob) (event : Event) (w : World p)
      → (extract_output p settings job event w).1.db ≡ w.db
  unfolding extract_output resolve_type
  extract_output-db job event w = ground arith

  pub extract_output-session :
      (job : ProcessingJob) (event : Event) (w : World p)
      → (extract_output p settings job event w).1.session ≡ w.session
  unfolding extract_output resolve_type
  extract_output-session job event w = ground arith

  pub run-Stored :
      (job : ProcessingJob) (event : Event) (w : World p) {outcome : ProcessingOutcome}
      → w.session ≡ []
      → p.db.job w.db job.id ≡ some job
      → (run p settings job event w).0 ≡ ok outcome
      → (outcome ≡ completed_outcome) × Stored p (run p settings job event w).1.db job.id
  unfolding run
  run-Stored job event w clean loaded h =
      let (found, extracted, rest, after) =
        >>=-ok (extract_output p settings job event)
          (λ x. persist p settings job x.0 x.1 >> pure completed_outcome) w h in
      let w' = (extract_output p settings job event w).1 in
      let (_, persisted, same, after') =
        >>=-ok (persist p settings job found.0 found.1) (λ _. pure completed_outcome) w' rest in
      (
        sym (ok-injective same),
        rw after (
            rw after' (
              persist-Stored job found.0 found.1 w' (extract_output-session job event w ∙ clean)
                (rw (extract_output-db job event w) loaded) persisted)),
      )
