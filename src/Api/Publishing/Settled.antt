-- ===== src/Api/Publishing/Settled.antt =====
-- A job that an endpoint of app/api/routes publishes is either in the stream or failed.
use async_ai_document_pipeli.Prelude.{◌∙◌, ap, ◌≡◌, refl, true, Option, some, [], String, arith}
use async_ai_document_pipeli.Core.Enums.{failed, document_processing_requested}
use async_ai_document_pipeli.Core.Errors.{Exn, is_queue_error}
use async_ai_document_pipeli.Core.Exec.{Outcome, ok, raised, handle_with}
use async_ai_document_pipeli.Core.Exec.Inversion.{try_except-ok, returned, handled}
use async_ai_document_pipeli.Core.Settings.{Settings}
use async_ai_document_pipeli.Db.Models.{ProcessingJob}
use async_ai_document_pipeli.Platform.{Platform}
use async_ai_document_pipeli.Platform.Laws.{DbLaws}
use async_ai_document_pipeli.Platform.World.{World, uuid4, utcnow}
use async_ai_document_pipeli.Schemas.Events.{Event, event_version_supported}
use async_ai_document_pipeli.Services.JobService.Marks.{Moved, mark_failed-Moved}
use async_ai_document_pipeli.Services.JobService.Operations.{mark_failed}
use async_ai_document_pipeli.Services.Publisher.{build_event, publish_job}
use async_ai_document_pipeli.Services.Queue.{command, client}
use async_ai_document_pipeli.Services.Queue.Producing.{publish, to_stream_fields}
use async_ai_document_pipeli.Api.Publishing.{publish_or_fail, fail_and_raise}

module _ (p : Platform) (settings : Settings p.Float) (correlation_id : Option String) where
  -- What Redis replies to the XADD of an event.
  abbrev pub appended : Event → p.Redis → Outcome String × p.Redis
  appended event = p.redis.xadd settings.redis_stream_name (to_stream_fields p.codec event)

  -- An event of the job's first attempt that Redis has accepted, and nothing else sent to it.
  abbrev pub InStream : ProcessingJob → p.Redis → p.Redis → Type 0
  InStream job before after =
      (event : Event) × (message_id : String) × ((appended event before).0 ≡ ok message_id)
      × (after ≡ (appended event before).1)
      × (event.job_id ≡ job.id)
      × (event.attempt ≡ 0)

  module _ (job : ProcessingJob) (message : String) (w : World p) where
    abbrev published : Outcome String × World p
    published = publish_job p settings correlation_id job job.document 0 w

    pub publish_job-db : published.1.db ≡ w.db
    unfolding publish_job build_event publish uuid4 utcnow command client
    publish_job-db = ground arith

    pub publish_job-session : published.1.session ≡ w.session
    unfolding publish_job build_event publish uuid4 utcnow command client
    publish_job-session = ground arith

    publish_job-storage : published.1.storage ≡ w.storage
    unfolding publish_job build_event publish uuid4 utcnow command client
    publish_job-storage = ground arith

    publish_job-InStream :
        {message_id : String} → published.0 ≡ ok message_id → InStream job w.redis published.1.redis
    unfolding publish_job build_event publish uuid4 utcnow command client
    publish_job-InStream {message_id} h =
        let drawn = p.env.uuid4 w.env in
        let read = p.env.utcnow drawn.1 in
        let event : Event = record {
          event_id = drawn.0;
          event_type = document_processing_requested;
          event_version = event_version_supported;
          job_id = job.id;
          document_id = job.document.id;
          storage_path = job.document.storage_path;
          requested_document_type = job.document.requested_document_type;
          attempt = 0;
          created_at = read.0;
          correlation_id = correlation_id;
        } in
        (event, message_id, ground arith, ground arith, refl, refl)

    fail_and_raise-ok :
        (e : Exn) (v : World p) {message_id : String}
        → ¬ ((fail_and_raise p settings correlation_id job message e v).0 ≡ ok message_id)
    unfolding fail_and_raise
    fail_and_raise-ok e v h = ground arith

    fail_and_raise-marked :
        (e : Exn) (v : World p) (job' : ProcessingJob)
        → is_queue_error e ≡ true
        → (mark_failed message job v).0 ≡ ok job'
        → fail_and_raise p settings correlation_id job message e v
          ≡ (raised e, (mark_failed message job v).1)
    unfolding fail_and_raise
    fail_and_raise-marked e v job' queue_error marked = ground arith

    pub publish_or_fail-ok :
        {message_id : String}
        → (publish_or_fail p settings correlation_id job message w).0 ≡ ok message_id
        → InStream job w.redis (publish_or_fail p settings correlation_id job message w).1.redis
          × ((publish_or_fail p settings correlation_id job message w).1.db ≡ w.db)
          × ((publish_or_fail p settings correlation_id job message w).1.storage ≡ w.storage)
    unfolding publish_or_fail
    publish_or_fail-ok h =
        elim (try_except-ok (publish_job p settings correlation_id job job.document 0)
          (fail_and_raise p settings correlation_id job message) w h) [
            | returned done after ↦
                rw after (publish_job-InStream done, publish_job-db, publish_job-storage)
            | handled e failure caught after ↦ absurd (fail_and_raise-ok e published.1 caught)
          ]

    -- If the publication of a loaded job raises a `QueueError`, with nothing pending, and
    -- `mark_failed` then succeeds, the error is raised to the client and the row of the job is
    -- failed, so that no job stays queued without an event.
    pub publish_or_fail-raised :
        (laws : DbLaws p) (e : Exn) (job' : ProcessingJob)
        → w.session ≡ []
        → p.db.job w.db job.id ≡ some job
        → published.0 ≡ raised e
        → is_queue_error e ≡ true
        → (mark_failed message job published.1).0 ≡ ok job'
        → ((publish_or_fail p settings correlation_id job message w).0 ≡ raised e)
          × Moved p (publish_or_fail p settings correlation_id job message w).1.db job job' failed
    unfolding publish_or_fail
    publish_or_fail-raised laws e job' clean loaded refused queue_error marked =
        let moved =
          mark_failed-Moved laws job published.1 (publish_job-session ∙ clean)
            (ap (λ db. p.db.job db job.id) publish_job-db ∙ loaded) message marked in
        rw (refused, handle_with, fail_and_raise-marked e published.1 job' queue_error marked)
          (refl, moved)
