-- ===== src/Db/Session.antt =====
-- What a session has pending when it commits, and what a commit makes of a row. The unit of work writes
-- an object's changed attributes by primary key, so an update is a function on the row.
use async_ai_document_pipeli.Prelude.{Option, none, some, List, [], ◌∷◌, ◌==◌, if◌then◌else◌}
use async_ai_document_pipeli.Db.Models.{Uuid, ProcessingJob, ExtractionResult}

pub data Change : Type 0 where
  -- `session.add(job)`, with the job's new document
  insert_job : ProcessingJob → Change
  -- assignments to attributes of a loaded job
  update_job : Uuid → (ProcessingJob → ProcessingJob) → Change
  -- `session.add(ExtractionResult(…))`
  insert_result : ExtractionResult → Change

abbrev pub map_row : (ProcessingJob → ProcessingJob) → Option ProcessingJob → Option ProcessingJob
map_row f none = none
map_row f (some job) = some (f job)

-- The job row with a given key, after the changes.
abbrev pub job_after : List Change → Uuid → Option ProcessingJob → Option ProcessingJob
job_after [] id row = row
job_after (insert_job job ∷ changes) id row =
    job_after changes id (if job.id == id then some job else row)
job_after (update_job key f ∷ changes) id row =
    job_after changes id (if key == id then map_row f row else row)
job_after (insert_result r ∷ changes) id row = job_after changes id row

-- The result row of a given job, after the changes.
abbrev pub result_after : List Change → Uuid → Option ExtractionResult → Option ExtractionResult
result_after [] id row = row
result_after (insert_job job ∷ changes) id row = result_after changes id row
result_after (update_job key f ∷ changes) id row = result_after changes id row
result_after (insert_result r ∷ changes) id row =
    result_after changes id (if r.job_id == id then some r else row)
