-- ===== src/System.antt =====
-- The API and any number of workers on one database: app/api/routes and app/worker, each with a
-- connection to Redis, a clock and a session of its own, about which nothing is assumed. A step is a
-- request, an event or a round of a loop, from its beginning to its end.
use async_ai_document_pipeli.Prelude.{◌≡◌, refl, Option, some, [], String}
use async_ai_document_pipeli.Core.Enums.{DocumentType, completed}
use async_ai_document_pipeli.Core.Settings.{Settings}
use async_ai_document_pipeli.Db.Models.{Uuid, ProcessingJob}
use async_ai_document_pipeli.Platform.{Platform}
use async_ai_document_pipeli.Platform.Laws.{DbLaws}
use async_ai_document_pipeli.Platform.World.{World}
use async_ai_document_pipeli.Services.JobService.Advance.{Advances, Advances-eq, Advances-trans}
use async_ai_document_pipeli.Services.JobService.Lifecycle.{
  RowReach, IsWellFormed, RowReach-IsWellFormed, completed_is_final,
}
use async_ai_document_pipeli.Services.Queue.{DeliveredEvent}
use async_ai_document_pipeli.Api.Documents.Upload.{UploadFile, upload_document}
use async_ai_document_pipeli.Api.Jobs.{retry_job}
use async_ai_document_pipeli.Api.Reached.{retry_job-Advances, upload_document-Advances}
use async_ai_document_pipeli.Worker.Consumer.{handle, run_round}
use async_ai_document_pipeli.Worker.Recovery.{recovery_round, scheduler_round}
use async_ai_document_pipeli.Worker.Reached.{
  handle-Advances, run_round-Advances, recovery_round-Advances, scheduler_round-Advances,
}

-- A request has a new session, which has nothing pending.
pub data SystemStep (p : Platform) (settings : Settings p.Float) : p.Db → p.Db → Type 0 where
  handles :
      (consumer : String) (delivered : DeliveredEvent) (w : World p)
      → SystemStep p settings w.db (handle p settings consumer delivered w).1.db
  consumes :
      (consumer : String) (w : World p)
      → SystemStep p settings w.db (run_round p settings consumer w).1.db
  recovers :
      (consumer : String) (w : World p)
      → SystemStep p settings w.db (recovery_round p settings consumer w).1.db
  schedules : (w : World p) → SystemStep p settings w.db (scheduler_round p settings w).1.db
  uploads :
      (correlation_id : Option String) (url_for : Uuid → String) (file : UploadFile)
      (document_type : Option DocumentType) (w : World p)
      → w.session ≡ []
      → SystemStep p settings w.db
          (upload_document p settings correlation_id url_for file document_type w).1.db
  retries :
      (correlation_id : Option String) (job_id : Uuid) (w : World p)
      → w.session ≡ []
      → SystemStep p settings w.db (retry_job p settings correlation_id job_id w).1.db

pub data SystemReach (p : Platform) (settings : Settings p.Float) (start : p.Db)
    : p.Db → Type 0 where
  at_start : SystemReach p settings start start
  then_step :
      {a b : p.Db}
      → SystemReach p settings start a
      → SystemStep p settings a b
      → SystemReach p settings start b

-- What the steps of the system keep of a row.
pub record Survives (p : Platform) (db : p.Db) (id : Uuid) (row : ProcessingJob) : Type 0 where
  pub now : ProcessingJob
  pub found : p.db.job db id ≡ some now
  pub lived : RowReach row now
  pub well_formed : IsWellFormed row → IsWellFormed now
  pub final : row.status ≡ completed → now ≡ row

module _ (p : Platform) (laws : DbLaws p) (settings : Settings p.Float) where
  step-Advances : {a b : p.Db} → SystemStep p settings a b → Advances p a b
  step-Advances (handles consumer delivered w) =
      handle-Advances p laws settings consumer delivered w
  step-Advances (consumes consumer w) = run_round-Advances p laws settings consumer w
  step-Advances (recovers consumer w) = recovery_round-Advances p laws settings consumer w
  step-Advances (schedules w) = scheduler_round-Advances p settings w
  step-Advances (uploads correlation_id url_for file document_type w clean) =
      upload_document-Advances p laws settings correlation_id url_for file document_type w clean
  step-Advances (retries correlation_id job_id w clean) =
      retry_job-Advances p laws settings correlation_id job_id w clean

  reach-Advances : {a b : p.Db} → SystemReach p settings a b → Advances p a b
  reach-Advances at_start = Advances-eq p refl
  reach-Advances (then_step r s) = Advances-trans p (reach-Advances r) (step-Advances s)

  -- After any number of uploads, retry requests, events, and rounds of consumers, sweepers and
  -- schedulers, one after another, by any processes and whatever of them fails, a row of a job
  -- that was there is still there, some steps of its life later; it is well formed if it was, and
  -- it is unchanged if it was completed.
  pub system-Survives :
      (start db : p.Db) (id : Uuid) (row : ProcessingJob)
      → SystemReach p settings start db
      → p.db.job start id ≡ some row
      → Survives p db id row
  system-Survives start db id row reached was =
      let (now, found, lived) = reach-Advances reached id row was in
      record {
        now = now;
        found = found;
        lived = lived;
        well_formed = λ v. RowReach-IsWellFormed row now v lived;
        final = λ c. completed_is_final row now c lived;
      }
