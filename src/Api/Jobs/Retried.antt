-- ===== src/Api/Jobs/Retried.antt =====
-- What a retry of `retry_job` in app/api/routes/jobs.py leaves behind.
use async_ai_document_pipeli.Prelude.{◌∙◌, sym, subst, ap, String, ◌≡◌, Option, some, [], arith}
use async_ai_document_pipeli.Core.Enums.{queued, failed}
use async_ai_document_pipeli.Core.Exec.{ok, pure, ◌>>=◌}
use async_ai_document_pipeli.Core.Exec.Inversion.{>>=-ok, ok-injective}
use async_ai_document_pipeli.Core.Settings.{Settings}
use async_ai_document_pipeli.Db.Models.{Uuid, ProcessingJob}
use async_ai_document_pipeli.Platform.{Platform}
use async_ai_document_pipeli.Platform.Laws.{DbLaws}
use async_ai_document_pipeli.Platform.World.{World}
use async_ai_document_pipeli.Services.JobService.{is_transition_allowed}
use async_ai_document_pipeli.Services.JobService.Operations.{get_job, reset_for_manual_retry}
use async_ai_document_pipeli.Services.JobService.Marks.{reset_for_manual_retry-Moved}
use async_ai_document_pipeli.Api.Jobs.{retry_job}
use async_ai_document_pipeli.Api.Publishing.{publish_or_fail}
use async_ai_document_pipeli.Api.Publishing.Settled.{InStream, publish_or_fail-ok}

module _ {p : Platform} (laws : DbLaws p) (job_id : Uuid) (w : World p) where
  -- A job that was read is the committed row with its key; nothing else has happened.
  pub get_job-ok :
      {job : ProcessingJob}
      → (get_job job_id w).0 ≡ ok job
      → (p.db.job w.db job_id ≡ some job)
        × (p.db.job (get_job job_id w).1.db job_id ≡ some job)
        × ((get_job job_id w).1.session ≡ w.session)
        × ((get_job job_id w).1.redis ≡ w.redis)
  unfolding get_job
  get_job-ok {job} h =
      ground
        (arith, laws.select_reads job_id w.db (some job), laws.select_keeps_job job_id job_id w.db)

reset-redis :
    {p : Platform} (job : ProcessingJob) (w : World p)
    → (reset_for_manual_retry job w).1.redis ≡ w.redis
unfolding reset_for_manual_retry
reset-redis job w = ground arith

reset-status :
    {p : Platform} (job : ProcessingJob) (w : World p) {job' : ProcessingJob}
    → (reset_for_manual_retry job w).0 ≡ ok job'
    → (job.status ≡ failed) × (job'.retry_count ≡ 0)
unfolding reset_for_manual_retry is_transition_allowed
reset-status job w h = ground arith

module _ (p : Platform) (settings : Settings p.Float) (correlation_id : Option String)
    (laws : DbLaws p) where
  -- If `retry_job` returns, with nothing pending before, then the job had failed, its row is
  -- queued with no retries counted and is the object that was returned, and Redis has accepted
  -- into the stream an event of the job's first attempt and has seen nothing else.
  pub retry_job-queued :
      (job_id : Uuid) (job' : ProcessingJob) (w : World p)
      → w.session ≡ []
      → (retry_job p settings correlation_id job_id w).0 ≡ ok job'
      → (job : ProcessingJob) × (p.db.job w.db job_id ≡ some job)
        × (job.status ≡ failed)
        × (p.db.job (retry_job p settings correlation_id job_id w).1.db job_id ≡ some job')
        × (job'.status ≡ queued)
        × (job'.retry_count ≡ 0)
        × InStream p settings correlation_id job' w.redis
            (retry_job p settings correlation_id job_id w).1.redis
  unfolding retry_job
  retry_job-queued job_id job' w clean h =
      let message : String = "The job could not be re-queued for processing." in
      let (job, found, rest, after) =
        >>=-ok (get_job job_id)
          (λ job.
            reset_for_manual_retry job
            >>= (λ r. publish_or_fail p settings correlation_id r message >>= (λ _. pure r)))
          w h in
      let v = (get_job job_id w).1 in
      let (was, loaded, session, redis) = get_job-ok laws job_id w found in
      let (requeued, reset, rest', after') =
        >>=-ok (reset_for_manual_retry job)
          (λ r. publish_or_fail p settings correlation_id r message >>= (λ _. pure r)) v rest in
      let u = (reset_for_manual_retry job v).1 in
      let (id, sent, same, after'') =
        >>=-ok (publish_or_fail p settings correlation_id requeued message) (λ _. pure requeued) u
          rest' in
      let key = laws.job_key w.db job_id job was in
      let moved =
        reset_for_manual_retry-Moved laws job v (session ∙ clean)
          (subst (λ k. p.db.job v.db k ≡ some job) (sym key) loaded) reset in
      let (streamed, db, _) =
        publish_or_fail-ok p settings correlation_id requeued message u sent in
      let row = subst (λ k. p.db.job u.db k ≡ some requeued) key moved.stored in
      let made = ok-injective same in
      let kept = reset-redis job v ∙ redis in
      let status = reset-status job v reset in
      rw (after, after', after'', sym made)
        (
          job,
          was,
          status.0,
          ap (λ d. p.db.job d job_id) db ∙ row,
          moved.reached,
          status.1,
          subst
              (λ r.
                InStream p settings correlation_id requeued r
                  (publish_or_fail p settings correlation_id requeued message u).1.redis)
              kept streamed,
        )
