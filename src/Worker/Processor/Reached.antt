-- ===== src/Worker/Processor/Reached.antt =====
-- Whatever happens in `process` of app/worker/processor.py, returns and exceptions alike, the committed rows
-- move along their lives.
use async_ai_document_pipeli.Prelude.{
  ◌<◌, ◌≡◌, refl, sym, subst, ◌∙◌, ap, Bool, true, false, Option, none, some, [], ◌∷◌, ◌++◌, String,
  arith,
}
use async_ai_document_pipeli.Core.Errors.{Exn}
use async_ai_document_pipeli.Core.Exec.{ok, pure, ◌>>◌}
use async_ai_document_pipeli.Core.Settings.{Settings}
use async_ai_document_pipeli.Db.Models.{ProcessingJob}
use async_ai_document_pipeli.Db.Session.{insert_result}
use async_ai_document_pipeli.Llm.Outputs.{ExtractionOutput}
use async_ai_document_pipeli.Platform.{Platform}
use async_ai_document_pipeli.Platform.Laws.{DbLaws}
use async_ai_document_pipeli.Platform.World.{World, rollback, commit, stage}
use async_ai_document_pipeli.Schemas.Events.{Event}
use async_ai_document_pipeli.Services.JobService.{attempt_duration}
use async_ai_document_pipeli.Services.JobService.Advance.{
  Advances, Advances-eq, Advances-same, commit-Advances, >>=-Advances, try_except-Advances,
}
use async_ai_document_pipeli.Platform.Refresh.{refresh, refresh-ok, refresh-same}
use async_ai_document_pipeli.Services.JobService.Advancing.{perform-Advances, claim_job-Advances}
use async_ai_document_pipeli.Services.JobService.Lifecycle.{RowStep}
use async_ai_document_pipeli.Services.JobService.Marks.{mark_completed-staged}
use async_ai_document_pipeli.Services.JobService.Operations.{
  claim_job, mark_completed, completed_with, mark_failed, mark_retrying,
}
use async_ai_document_pipeli.Services.JobService.Refused.{Operation}
use async_ai_document_pipeli.Services.JobService.Rows.{claim_job-some, claim_job-session}
use async_ai_document_pipeli.Services.Queue.{DeliveredEvent}
use async_ai_document_pipeli.Worker.Processor.{
  ProcessingOutcome, completed_outcome, failed_outcome, dead_lettered, redelivered_message,
  after_schedule, fail_job, retry_if, retry_or_fail, handle_failure, try_schedule, commit_result,
  persist, extract_output, run, dead_letter_or_run, process_claimed, after_claim, process,
  with_session, result_row,
}
use async_ai_document_pipeli.Worker.Processor.Failure.{
  try_schedule-db, try_schedule-session, should_retry-room,
}
use async_ai_document_pipeli.Worker.Processor.Success.{extract_output-db, extract_output-session}

module _ (p : Platform) (laws : DbLaws p) (settings : Settings p.Float) where
  module _ (job : ProcessingJob) (w : World p) (clean : w.session ≡ [])
      (loaded : p.db.job w.db job.id ≡ some job) where
    fail_job-Advances :
        (message : String) (outcome : ProcessingOutcome)
        → Advances p w.db (fail_job p settings message outcome job w).1.db
    unfolding fail_job
    fail_job-Advances message outcome =
        >>=-Advances (λ _. pure outcome) w (mark_failed message job)
          (perform-Advances laws (Operation.fail message) job w refl tt clean loaded)
          (λ a h. Advances-eq p refl)

    after_schedule-Advances :
        (message : String) (scheduled : Bool)
        → job.retry_count < job.max_retries
        → Advances p w.db (after_schedule p settings job message scheduled w).1.db
    unfolding after_schedule
    after_schedule-Advances message false room = fail_job-Advances _ failed_outcome
    after_schedule-Advances message true room =
        >>=-Advances _ w (mark_retrying message job)
          (perform-Advances laws (Operation.retry message) job w refl room clean loaded)
          (λ a h. Advances-eq p refl)

  retry_if-Advances :
      (job : ProcessingJob) (event : Event) (message : String) (retry : Bool) (w : World p)
      → w.session ≡ []
      → p.db.job w.db job.id ≡ some job
      → (retry ≡ true → job.retry_count < job.max_retries)
      → Advances p w.db (retry_if p settings job event message retry w).1.db
  unfolding retry_if
  retry_if-Advances job event message false w clean loaded room =
      fail_job-Advances job w clean loaded message failed_outcome
  retry_if-Advances job event message true w clean loaded room =
      let kept = try_schedule-db p settings job event w in
      >>=-Advances (after_schedule p settings job message) w (try_schedule p settings job event)
        (Advances-eq p kept)
        (λ scheduled h.
          after_schedule-Advances job (try_schedule p settings job event w).1
            (try_schedule-session p settings job event w ∙ clean) (rw kept loaded) message scheduled
            (room refl))

  handle_failure-Advances :
      (job : ProcessingJob) (event : Event) (error : Exn) (w : World p)
      → Advances p w.db (handle_failure p settings job event error w).1.db
  unfolding handle_failure rollback retry_or_fail
  handle_failure-Advances job event error w =
      let w₁ : World p = record w { session = [] } in
      >>=-Advances (λ fresh. retry_or_fail p settings fresh event error) w₁ (refresh job)
        (Advances-same p (refresh-same laws job w₁))
        (λ fresh h.
          let (found, session, still) = refresh-ok laws job w₁ h in
          let key = laws.job_key w₁.db job.id fresh found in
          retry_if-Advances fresh event _ _ (refresh job w₁).1 session
            (subst (λ k. p.db.job (refresh job w₁).1.db k ≡ some fresh) (sym key) still)
            (λ yes.
              let room =
                should_retry-room p laws settings w.db error fresh.retry_count fresh.max_retries
                  yes in
              omega arith))

  -- The commit of `_persist`, whatever becomes of it, is a commit of what was pending.
  commit_result-db :
      (w : World p) → (commit_result p settings w).1.db ≡ (p.db.commit w.session w.db).1
  unfolding commit_result commit rollback
  commit_result-db w = ground arith

  -- What `_persist` has staged when it commits.
  module _ (job : ProcessingJob) (output : ExtractionOutput) (raw_text : String) (w : World p)
      (clean : w.session ≡ []) (loaded : p.db.job w.db job.id ≡ some job) where
    abbrev w_added : World p
    w_added = record w {
      session =
          w.session
          ++ insert_result (result_row settings.raw_text_store_max_chars job output raw_text) ∷ [];
    }

    marked-Advances :
        (job' : ProcessingJob)
        → (mark_completed false job w_added).0 ≡ ok job'
        → Advances p
            (mark_completed false job w_added).1.db
            (commit_result p settings (mark_completed false job w_added).1).1.db
    marked-Advances job' h =
        let v = (mark_completed false job w_added).1 in
        let now = (p.env.utcnow w.env).0 in
        let ms = attempt_duration p.env job.started_at now in
        let (allowed, session, db) = mark_completed-staged laws job w_added h in
        rw (commit_result-db v) (
          commit-Advances laws v.session v.db job (completed_with now ms)
            (λ id row. rw (session, clean) refl) (rw db loaded)
            (RowStep.complete job now ms allowed) (p.db.commit v.session v.db).0 refl)

    unmarked : (mark_completed false job w_added).1.db ≡ w.db
    unfolding mark_completed
    unmarked = ground arith

    persist-Advances : Advances p w.db (persist p settings job output raw_text w).1.db
    unfolding persist stage
    persist-Advances =
        >>=-Advances (λ _. commit_result p settings) w (λ v. mark_completed false job w_added)
          (Advances-eq p unmarked) (λ job' h. marked-Advances job' h)

  run-Advances :
      (job : ProcessingJob) (event : Event) (w : World p)
      → w.session ≡ []
      → p.db.job w.db job.id ≡ some job
      → Advances p w.db (run p settings job event w).1.db
  unfolding run
  run-Advances job event w clean loaded =
      let v = (extract_output p settings job event w).1 in
      let kept = extract_output-db p laws settings job event w in
      >>=-Advances (λ x. persist p settings job x.0 x.1 >> pure completed_outcome) w
        (extract_output p settings job event) (Advances-eq p kept)
        (λ x h.
          >>=-Advances (λ _. pure completed_outcome) v (persist p settings job x.0 x.1)
            (persist-Advances job x.0 x.1 v
              (extract_output-session p laws settings job event w ∙ clean) (rw kept loaded))
            (λ a g. Advances-eq p refl))

  module _ (delivered : DeliveredEvent) where
    dead_letter_or_run-Advances :
        (over : Bool) (job : ProcessingJob) (w : World p)
        → w.session ≡ []
        → p.db.job w.db job.id ≡ some job
        → Advances p w.db (dead_letter_or_run p settings delivered job over w).1.db
    unfolding dead_letter_or_run
    dead_letter_or_run-Advances true job w clean loaded =
        fail_job-Advances job w clean loaded (redelivered_message delivered.delivery_count)
          dead_lettered
    dead_letter_or_run-Advances false job w clean loaded =
        try_except-Advances (handle_failure p settings job delivered.event) w
          (run p settings job delivered.event) (run-Advances job delivered.event w clean loaded)
          (λ e h.
            handle_failure-Advances job delivered.event e (run p settings job delivered.event w).1)

    after_claim-Advances :
        (claimed : Option ProcessingJob) (w : World p)
        → ((job : ProcessingJob)
            → claimed ≡ some job
            → (w.session ≡ []) × (p.db.job w.db job.id ≡ some job))
        → Advances p w.db (after_claim p settings delivered claimed w).1.db
    unfolding after_claim process_claimed
    after_claim-Advances none w loaded = Advances-eq p refl
    after_claim-Advances (some job) w loaded =
        let (clean, found) = loaded job refl in dead_letter_or_run-Advances _ job w clean found

    claimed_loaded :
        (consumer : String) (w : World p) (claimed : Option ProcessingJob) (job : ProcessingJob)
        → w.session ≡ []
        → (claim_job delivered.event.job_id consumer settings.stale_processing_seconds w).0
          ≡ ok claimed
        → claimed ≡ some job
        → ((claim_job delivered.event.job_id consumer settings.stale_processing_seconds w).1.session
            ≡ [])
          × (p.db.job
                (claim_job delivered.event.job_id consumer settings.stale_processing_seconds w).1.db
                job.id
              ≡ some job)
    claimed_loaded consumer w claimed job clean h same =
        let id = delivered.event.job_id in
        let stale = settings.stale_processing_seconds in
        let h' = h ∙ ap ok same in
        let (row, found, able, made, stored) = claim_job-some laws w id consumer stale clean h' in
        let key = laws.job_key (claim_job id consumer stale w).1.db id job stored in
        (
          claim_job-session laws w id consumer stale h',
          subst (λ k. p.db.job (claim_job id consumer stale w).1.db k ≡ some job) (sym key) stored,
        )

    pub process-Advances :
        (consumer : String) (w : World p)
        → Advances p w.db (process p settings consumer delivered w).1.db
    unfolding process with_session
    process-Advances consumer w =
        let w₀ : World p = record w { session = [] } in
        >>=-Advances (after_claim p settings delivered) w₀
          (claim_job delivered.event.job_id consumer settings.stale_processing_seconds)
          (claim_job-Advances laws delivered.event.job_id consumer settings.stale_processing_seconds
            w₀ refl)
          (λ claimed h.
            after_claim-Advances claimed _
              (λ job same. claimed_loaded consumer w₀ claimed job refl h same))
