-- ===== src/Worker/Processor/Retried.antt =====
-- `_handle_failure` of app/worker/processor.py, where it reports that a retry is scheduled.
use async_ai_document_pipeli.Prelude.{
  ℕ, ◌+◌, ◌<◌, ◌≡◌, ◌≢◌, refl, sym, ◌∙◌, ap, subst, Bool, true, false, some, [], String, arith,
}
use async_ai_document_pipeli.Core.Enums.{retrying}
use async_ai_document_pipeli.Core.Errors.{Exn}
use async_ai_document_pipeli.Core.Exec.{ok, pure}
use async_ai_document_pipeli.Core.Exec.Inversion.{>>=-ok}
use async_ai_document_pipeli.Core.Settings.{Settings, redis_retry_zset}
use async_ai_document_pipeli.Db.Models.{Uuid, ProcessingJob}
use async_ai_document_pipeli.Platform.{Platform}
use async_ai_document_pipeli.Platform.Laws.{DbLaws}
use async_ai_document_pipeli.Platform.Refresh.{refresh, refresh-ok}
use async_ai_document_pipeli.Platform.World.{World, utcnow, commit, stage, rollback, select_job}
use async_ai_document_pipeli.Schemas.Events.{Event}
use async_ai_document_pipeli.Services.JobService.Marks.{
  mark_retrying-Moved, mark_retrying-retry_count,
}
use async_ai_document_pipeli.Services.JobService.Operations.{mark_retrying}
use async_ai_document_pipeli.Worker.Processor.{
  retry_scheduled, failed_outcome, try_schedule, retry_or_fail, handle_failure, retry_if,
  after_schedule,
}
use async_ai_document_pipeli.Worker.Processor.Failure.{
  fail_job-InState, try_schedule-db, try_schedule-session,
}
use async_ai_document_pipeli.Worker.Processor.Scheduled.{try_schedule-true}
use async_ai_document_pipeli.Worker.RetryPolicy.{should_retry, is_retryable}

-- A failure that is retried, from the committed row before to the one after.
pub record IsRetried (p : Platform) (settings : Settings p.Float) (event : Event) (error : Exn)
    (id : Uuid) (before after : World p) : Type 0 where
  pub row : ProcessingJob
  pub row_after : ProcessingJob
  pub next_event : Event
  pub score : p.Float
  pub found : p.db.job before.db id ≡ some row
  pub transient : is_retryable error ≡ true
  pub attempt_left : row.retry_count < row.max_retries
  pub stored : p.db.job after.db id ≡ some row_after
  pub waits : row_after.status ≡ retrying
  pub counted : row_after.retry_count ≡ row.retry_count + 1
  pub same_budget : row_after.max_retries ≡ row.max_retries
  pub scheduled :
      p.redis.zadd (redis_retry_zset settings) (p.codec.dump_json next_event) score before.redis
      ≡ (ok tt, after.redis)
  pub same_job : next_event.job_id ≡ event.job_id
  pub next_number : next_event.attempt ≡ event.attempt + 1

failed≢retried : failed_outcome ≢ retry_scheduled
failed≢retried h = cc

module _ (p : Platform) (laws : DbLaws p) (settings : Settings p.Float) (event : Event)
    (error : Exn) where
  mark_retrying-redis :
      (message : String) (job : ProcessingJob) (w : World p)
      → (mark_retrying message job w).1.redis ≡ w.redis
  unfolding mark_retrying utcnow commit stage
  mark_retrying-redis message job w = ground arith

  refresh-redis : (job : ProcessingJob) (w : World p) → (refresh job w).1.redis ≡ w.redis
  unfolding refresh select_job
  refresh-redis job w = ground arith

  should_retry-both :
      (count budget : ℕ)
      → should_retry error count budget ≡ true
      → (is_retryable error ≡ true) × (count < budget)
  unfolding should_retry
  should_retry-both count budget h = ground arith

  module _ (job : ProcessingJob) (message : String) (w : World p) (clean : w.session ≡ [])
      (loaded : p.db.job w.db job.id ≡ some job) where
    abbrev v : World p
    v = (try_schedule p settings job event w).1

    after_schedule-IsRetried :
        (flag : Bool)
        → (try_schedule p settings job event w).0 ≡ ok flag
        → (is_retryable error ≡ true) × (job.retry_count < job.max_retries)
        → (after_schedule p settings job message flag v).0 ≡ ok retry_scheduled
        → IsRetried p settings event error job.id w (after_schedule p settings job message flag v).1
    unfolding after_schedule
    after_schedule-IsRetried false tried room h = absurd (
        failed≢retried (
          sym
            (fail_job-InState p laws settings job v
              (try_schedule-session p settings job event w ∙ clean)
              (rw (try_schedule-db p settings job event w) loaded) _ failed_outcome h).0))
    after_schedule-IsRetried true tried (transient, room) h =
        let session = try_schedule-session p settings job event w ∙ clean in
        let still : p.db.job v.db job.id ≡ some job =
          rw (try_schedule-db p settings job event w) loaded in
        let (job', done, same, after) =
          >>=-ok (mark_retrying message job) (λ _. pure retry_scheduled) v h in
        let moved = mark_retrying-Moved laws job v session still message done in
        let (count, budget) = mark_retrying-retry_count laws job v session still message done in
        let (next_event, score, accepted, redis, same_job, number) =
          try_schedule-true p settings job event w tried in
        record {
          row = job;
          row_after = job';
          next_event = next_event;
          score = score;
          found = loaded;
          transient = transient;
          attempt_left = room;
          stored = rw after moved.stored;
          waits = moved.reached;
          counted = count;
          same_budget = budget;
          scheduled = λ i. (
            accepted i,
            (sym redis
                  ∙ sym (mark_retrying-redis message job v)
                  ∙ sym (ap (λ (r : _ × World p). r.1.redis) after))
                i,
          );
          same_job = same_job;
          next_number = number;
        }

    retry_if-IsRetried :
        (retry : Bool)
        → should_retry error job.retry_count job.max_retries ≡ retry
        → (retry_if p settings job event message retry w).0 ≡ ok retry_scheduled
        → IsRetried p settings event error job.id w
            (retry_if p settings job event message retry w).1
    unfolding retry_if
    retry_if-IsRetried false decided h = absurd (
        failed≢retried
          (sym (fail_job-InState p laws settings job w clean loaded _ failed_outcome h).0))
    retry_if-IsRetried true decided h =
        let (flag, tried, rest, after) =
          >>=-ok (try_schedule p settings job event) (after_schedule p settings job message) w h in
        rw after (
          after_schedule-IsRetried flag tried
            (should_retry-both job.retry_count job.max_retries decided) rest)

  -- If `_handle_failure` reports a scheduled retry, then the error is retryable and the committed
  -- row of the job had an attempt left. The row now waits in `retrying` with exactly one retry
  -- more and the same budget, and all that Redis has seen is that it accepted, into the retry
  -- set, an event for the job of the event with the next attempt number.
  pub handle_failure-IsRetried :
      (job : ProcessingJob) (w : World p)
      → (handle_failure p settings job event error w).0 ≡ ok retry_scheduled
      → IsRetried p settings event error job.id w (handle_failure p settings job event error w).1
  unfolding handle_failure rollback retry_or_fail
  handle_failure-IsRetried job w h =
      let w₁ : World p = record w { session = [] } in
      let (fresh, refreshed, rest, after) =
        >>=-ok (refresh job) (λ job'. retry_or_fail p settings job' event error) w₁ h in
      let (found, session, still) = refresh-ok laws job w₁ refreshed in
      let key = laws.job_key w₁.db job.id fresh found in
      let u = (refresh job w₁).1 in
      let at_key : p.db.job u.db fresh.id ≡ some fresh =
        subst (λ k. p.db.job u.db k ≡ some fresh) (sym key) still in
      let r = retry_if-IsRetried fresh _ u session at_key _ refl rest in
      let ends : (handle_failure p settings job event error w).1
          ≡ (retry_or_fail p settings fresh event error u).1 =
        ap (λ (x : _ × World p). x.1) after in
      rw ends (record {
        row = r.row;
        row_after = r.row_after;
        next_event = r.next_event;
        score = r.score;
        found = found ∙ sym at_key ∙ r.found;
        transient = r.transient;
        attempt_left = r.attempt_left;
        stored =
            subst
              (λ k.
                p.db.job (retry_or_fail p settings fresh event error u).1.db k ≡ some r.row_after)
              key r.stored;
        waits = r.waits;
        counted = r.counted;
        same_budget = r.same_budget;
        scheduled =
            ap (p.redis.zadd (redis_retry_zset settings) (p.codec.dump_json r.next_event) r.score)
              (sym (refresh-redis job w₁))
            ∙ r.scheduled;
        same_job = r.same_job;
        next_number = r.next_number;
      })
