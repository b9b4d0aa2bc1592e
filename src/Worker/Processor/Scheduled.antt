-- ===== src/Worker/Processor/Scheduled.antt =====
-- The order of `_handle_failure` in app/worker/processor.py: a retry is in Redis before it is recorded.
use async_ai_document_pipeli.Prelude.{◌+◌, ◌≡◌, refl, true, arith}
use async_ai_document_pipeli.Core.Errors.{Exn}
use async_ai_document_pipeli.Core.Exec.{Outcome, ok, try_except}
use async_ai_document_pipeli.Core.Exec.Inversion.{>>=-ok, try_except-ok, returned, handled}
use async_ai_document_pipeli.Core.Settings.{Settings, redis_retry_zset}
use async_ai_document_pipeli.Db.Models.{ProcessingJob}
use async_ai_document_pipeli.Platform.{Platform}
use async_ai_document_pipeli.Platform.World.{World, utcnow, uuid4}
use async_ai_document_pipeli.Schemas.Events.{Event, next_attempt}
use async_ai_document_pipeli.Services.Queue.{command, client}
use async_ai_document_pipeli.Services.Queue.Producing.{schedule_retry}
use async_ai_document_pipeli.Worker.RetryPolicy.{compute_delay}
use async_ai_document_pipeli.Worker.Processor.{try_schedule, schedule_next, not_scheduled}

not_scheduled-true : {p : Platform} (e : Exn) (v : World p) → ¬ ((not_scheduled e v).0 ≡ ok true)
unfolding not_scheduled
not_scheduled-true e v h = ground arith

module _ (p : Platform) (settings : Settings p.Float) (job : ProcessingJob) (event : Event)
    (w : World p) where
  -- The ZADD of an event, due at a score.
  abbrev pub parked : Event → p.Float → Outcome (Unit {0}) × p.Redis
  parked e score = p.redis.zadd (redis_retry_zset settings) (p.codec.dump_json e) score w.redis

  -- The delay is drawn from the environment, so nothing else moves.
  compute_delay-redis : (compute_delay p job.retry_count settings w).1.redis ≡ w.redis
  unfolding compute_delay
  compute_delay-redis = ground arith

  -- The body of the `try`, once the delay is known.
  body-true :
      (delay : p.Float) (v : World p)
      → v.redis ≡ w.redis
      → (schedule_next p settings event delay v).0 ≡ ok true
      → (next : Event) × (score : p.Float) × ((parked next score).0 ≡ ok tt)
        × ((schedule_next p settings event delay v).1.redis ≡ (parked next score).1)
        × (next.job_id ≡ event.job_id)
        × (next.attempt ≡ event.attempt + 1)
  unfolding schedule_next schedule_retry uuid4 utcnow command client next_attempt
  body-true delay v same h =
      let drawn = p.env.uuid4 v.env in
      let read = p.env.utcnow drawn.1 in
      let again = p.env.utcnow read.1 in
      (
        next_attempt drawn.0 read.0 event,
        p.float.add (p.env.timestamp again.0) delay,
        ground arith,
        ground arith,
        refl,
        refl,
      )

  -- If the retry of a job counts as scheduled, then Redis accepted an event into the retry set
  -- for the same job, with the next attempt number, and that is all that Redis has seen.
  pub try_schedule-true :
      (try_schedule p settings job event w).0 ≡ ok true
      → (next : Event) × (score : p.Float) × ((parked next score).0 ≡ ok tt)
        × ((try_schedule p settings job event w).1.redis ≡ (parked next score).1)
        × (next.job_id ≡ event.job_id)
        × (next.attempt ≡ event.attempt + 1)
  unfolding try_schedule
  try_schedule-true h =
      let (delay, computed, rest, after) =
        >>=-ok (compute_delay p job.retry_count settings)
          (λ d. try_except (schedule_next p settings event d) not_scheduled) w h in
      let v = (compute_delay p job.retry_count settings w).1 in
      rw after (elim (try_except-ok (schedule_next p settings event delay) not_scheduled v rest) [
        | returned done after' ↦ rw after' (body-true delay v compute_delay-redis done)
        | handled e failed caught after' ↦
            absurd (not_scheduled-true e (schedule_next p settings event delay v).1 caught)
      ])
