-- ===== src/Worker/Processor/Recorded.antt =====
-- What the database holds when `process` of app/worker/processor.py returns an outcome.
use async_ai_document_pipeli.Prelude.{◌≤◌, ◌≡◌, subst, some}
use async_ai_document_pipeli.Core.Enums.{JobStatus, completed, retrying, failed}
use async_ai_document_pipeli.Db.Models.{Uuid, ProcessingJob, ExtractionResult}
use async_ai_document_pipeli.Platform.{Platform}
use async_ai_document_pipeli.Worker.Processor.{
  ProcessingOutcome, completed_outcome, skipped, retry_scheduled, failed_outcome, dead_lettered,
}

-- The job's committed row is in a state.
abbrev pub InState : (p : Platform) → p.Db → Uuid → JobStatus → Type 0
InState p db id status = (row : ProcessingJob) × (p.db.job db id ≡ some row) × (row.status ≡ status)

-- The committed row counts an attempt within the job's budget, and waits for its retry.
abbrev pub AwaitsRetry : (p : Platform) → p.Db → Uuid → Type 0
AwaitsRetry p db id =
    (row : ProcessingJob) × (p.db.job db id ≡ some row)
    × (row.status ≡ retrying)
    × (row.retry_count ≤ row.max_retries)

-- The result and the terminal state stand together.
abbrev pub Stored : (p : Platform) → p.Db → Uuid → Type 0
Stored p db id =
    InState p db id completed
    × ((r : ExtractionResult) × (p.db.result db id ≡ some r) × (r.job_id ≡ id))

abbrev pub Recorded : (p : Platform) → p.Db → p.Db → Uuid → ProcessingOutcome → Type 0
Recorded p before after id completed_outcome = Stored p after id
Recorded p before after id skipped = (other : Uuid) → p.db.job after other ≡ p.db.job before other
Recorded p before after id retry_scheduled = AwaitsRetry p after id
Recorded p before after id failed_outcome = InState p after id failed
Recorded p before after id dead_lettered = InState p after id failed

module _ (p : Platform) (before : p.Db) where
  pub at_key :
      (db : p.Db) (outcome : ProcessingOutcome) {i j : Uuid}
      → i ≡ j
      → Recorded p before db i outcome
      → Recorded p before db j outcome
  at_key db outcome e = subst (λ k. Recorded p before db k outcome) e

  pub as_outcome :
      (db : p.Db) (id : Uuid) {o o' : ProcessingOutcome}
      → o ≡ o'
      → Recorded p before db id o
      → Recorded p before db id o'
  as_outcome db id e = subst (λ o. Recorded p before db id o) e
