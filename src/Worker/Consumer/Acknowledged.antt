-- ===== src/Worker/Consumer/Acknowledged.antt =====
-- When `handle` of app/worker/consumer.py acknowledges an entry.
use async_ai_document_pipeli.Prelude.{◌+◌, ◌-◌, ◌≡◌, ◌∙◌, false, none, some, String, arith}
use async_ai_document_pipeli.Core.Errors.{Exn}
use async_ai_document_pipeli.Core.Exec.{Outcome, ok, raised}
use async_ai_document_pipeli.Core.Settings.{Settings}
use async_ai_document_pipeli.Db.Models.{ProcessingJob}
use async_ai_document_pipeli.Platform.{Platform}
use async_ai_document_pipeli.Platform.Laws.{DbLaws}
use async_ai_document_pipeli.Platform.World.{World}
use async_ai_document_pipeli.Services.JobService.{is_claimable, seconds}
use async_ai_document_pipeli.Services.Queue.{DeliveredEvent, command, client}
use async_ai_document_pipeli.Services.Queue.Consuming.{ack}
use async_ai_document_pipeli.Worker.Consumer.{acknowledge, count_processed, handle}
use async_ai_document_pipeli.Worker.Processor.{ProcessingOutcome, skipped, process}
use async_ai_document_pipeli.Worker.Processor.Durable.{process-Recorded}
use async_ai_document_pipeli.Worker.Processor.Recorded.{Recorded}
use async_ai_document_pipeli.Worker.Processor.Unclaimed.{process-Inert}

module _ (p : Platform) (settings : Settings p.Float) (consumer : String)
    (delivered : DeliveredEvent) where
  -- The connection after an acknowledgement.
  abbrev pub acked : p.Redis → p.Redis
  acked redis =
      (p.redis.xack settings.redis_stream_name settings.redis_consumer_group delivered.message_id
        redis).1

  acknowledge-some :
      (r : Outcome ProcessingOutcome) (w : World p) {outcome : ProcessingOutcome}
      → (acknowledge p settings consumer delivered r w).0 ≡ ok (some outcome)
      → (r ≡ ok outcome)
        × ((acknowledge p settings consumer delivered r w).1.db ≡ w.db)
        × ((acknowledge p settings consumer delivered r w).1.redis ≡ acked w.redis)
        × ((acknowledge p settings consumer delivered r w).1.processed ≡ w.processed + 1)
  unfolding acknowledge ack command client count_processed
  acknowledge-some r w h = ground arith

  module _ (laws : DbLaws p) (w : World p) where
    -- If `handle` reports an outcome, then the committed rows agree with it as `Recorded` says,
    -- and the only thing that Redis has seen after the processing is the one acknowledgement of
    -- this entry.
    pub handle-durable :
        (outcome : ProcessingOutcome)
        → (handle p settings consumer delivered w).0 ≡ ok (some outcome)
        → Recorded p w.db
            (handle p settings consumer delivered w).1.db
            delivered.event.job_id
            outcome
          × ((handle p settings consumer delivered w).1.redis
              ≡ acked (process p settings consumer delivered w).1.redis)
    unfolding handle
    handle-durable outcome h =
        let w' = (process p settings consumer delivered w).1 in
        let (done, db, redis, counted) = acknowledge-some _ w' h in
        (rw db (process-Recorded p laws settings consumer delivered w done), redis)

    -- If `process` raises, `handle` reports nothing and the entry is not acknowledged.
    pub handle-raised :
        (e : Exn)
        → (process p settings consumer delivered w).0 ≡ raised e
        → handle p settings consumer delivered w
          ≡ (ok none, (process p settings consumer delivered w).1)
    unfolding handle acknowledge
    handle-raised e h = rw h

    -- If the job's row cannot be claimed, because it is terminal or another worker's claim is not
    -- stale yet, and `handle` reports an outcome, then that is `skipped`, the row is as it was,
    -- and the entry is acknowledged.
    pub handle-unclaimable :
        (row : ProcessingJob)
        → p.db.job w.db delivered.event.job_id ≡ some row
        → is_claimable ((p.env.utcnow w.env).0 - seconds settings.stale_processing_seconds) row
          ≡ false
        → (outcome : ProcessingOutcome)
        → (handle p settings consumer delivered w).0 ≡ ok (some outcome)
        → (outcome ≡ skipped)
          × (p.db.job (handle p settings consumer delivered w).1.db delivered.event.job_id
              ≡ some row)
          × ((handle p settings consumer delivered w).1.redis ≡ acked w.redis)
    unfolding handle
    handle-unclaimable row found busy outcome h =
        let w' = (process p settings consumer delivered w).1 in
        let (done, db, redis, counted) = acknowledge-some _ w' h in
        let inert = process-Inert p settings delivered w laws consumer row found busy in
        (inert.outcome outcome done, rw db (inert.jobs _ ∙ found), rw inert.redis at redis)
