-- ===== src/Services/Metrics/Tallied.antt =====
-- The tallies of app/services/metrics.py are those of the jobs.
use async_ai_document_pipeli.Prelude.{
  ℕ, suc, ◌+◌, ◌≡◌, refl, ◌↔◌, true, false, Bool-cases, inl, inr, Option, none, List, [], ◌∷◌, ◌==◌,
  length, if◌then◌else◌, arith,
}
use async_ai_document_pipeli.Core.Enums.{
  JobStatus, queued, processing, retrying, completed, failed, status_eq,
}
use async_ai_document_pipeli.Core.Settings.{Settings}
use async_ai_document_pipeli.Db.Models.{ProcessingJob}
use async_ai_document_pipeli.Platform.{Platform}
use async_ai_document_pipeli.Services.Metrics.{Queries, has_row, count_of, success_rate, summary_of}
use async_ai_document_pipeli.Services.Queue.{QueueDepth}

-- The jobs in a state.
unfoldable pub count_in : JobStatus → List ProcessingJob → ℕ
count_in status [] = 0
count_in status (job ∷ jobs) =
    if status_eq job.status status then suc (count_in status jobs) else count_in status jobs

-- The counts of the rows of a status.
unfoldable pub rows_of : JobStatus → List (JobStatus × ℕ) → List ℕ
rows_of status [] = []
rows_of status ((key, count) ∷ rows) =
    let rest = rows_of status rows in if status_eq key status then count ∷ rest else rest

-- What GROUP BY returns: one row for each state that some job is in, with the number of those jobs.
abbrev pub IsGrouped : List (JobStatus × ℕ) → List ProcessingJob → Type 0
IsGrouped rows jobs =
    (status : JobStatus)
    → rows_of status rows ≡ (if count_in status jobs == 0 then [] else count_in status jobs ∷ [])

-- A status with no row, and a status with one.
absent :
    (status : JobStatus) (rows : List (JobStatus × ℕ))
    → rows_of status rows ≡ []
    → (has_row status rows ≡ false) × (count_of status rows ≡ 0)
unfolding rows_of has_row count_of
absent status [] h = (refl, refl)
absent status ((key, count) ∷ rows) h = ground (arith, absent status rows)

single :
    (status : JobStatus) (rows : List (JobStatus × ℕ)) (n : ℕ)
    → rows_of status rows ≡ n ∷ []
    → (has_row status rows ≡ true) × (count_of status rows ≡ n)
unfolding rows_of has_row count_of
single status [] n h = cc
single status ((key, count) ∷ rows) n h = ground (arith, absent status rows, single status rows n)

grouped-count :
    (rows : List (JobStatus × ℕ)) (jobs : List ProcessingJob) (status : JobStatus)
    → IsGrouped rows jobs
    → count_of status rows ≡ count_in status jobs
grouped-count rows jobs status grouped = elim (Bool-cases (count_in status jobs == 0)) [
  | inl empty ↦
      let gone : rows_of status rows ≡ [] = rw empty at (grouped status) in
      ground (arith, (absent status rows gone).1)
  | inr some_jobs ↦
      let one : rows_of status rows ≡ count_in status jobs ∷ [] =
        rw some_jobs at (grouped status) in
      (single status rows (count_in status jobs) one).1
]

count_in-total :
    (jobs : List ProcessingJob)
    → count_in queued jobs
        + count_in processing jobs
        + count_in retrying jobs
        + count_in completed jobs
        + count_in failed jobs
      ≡ length jobs
unfolding count_in
count_in-total [] = refl
count_in-total (job ∷ jobs) = by_status job.status (count_in-total jobs)
  where
    by_status :
        (status : JobStatus)
        → count_in queued jobs
            + count_in processing jobs
            + count_in retrying jobs
            + count_in completed jobs
            + count_in failed jobs
          ≡ length jobs
        → (if status_eq status queued then suc (count_in queued jobs) else count_in queued jobs)
            + (if status_eq status processing
                then suc (count_in processing jobs)
                else count_in processing jobs)
            + (if status_eq status retrying
                then suc (count_in retrying jobs)
                else count_in retrying jobs)
            + (if status_eq status completed
                then suc (count_in completed jobs)
                else count_in completed jobs)
            + (if status_eq status failed then suc (count_in failed jobs) else count_in failed jobs)
          ≡ suc (length jobs)
    by_status queued h = omega (arith, h)
    by_status processing h = omega (arith, h)
    by_status retrying h = omega (arith, h)
    by_status completed h = omega (arith, h)
    by_status failed h = omega (arith, h)

module _ (p : Platform) (queries : Queries p.Db p.Float) (settings : Settings p.Float) where
  -- If the rows of the statement are the groups of the jobs, the summary counts the jobs in each
  -- state, its total is the number of all jobs, and it has no success rate exactly when no job is
  -- completed or failed.
  pub summary_of-Tallied :
      (rows : List (JobStatus × ℕ)) (jobs : List ProcessingJob) (average : Option p.Float)
      (last_day : ℕ) (depth : QueueDepth)
      → IsGrouped rows jobs
      → let summary = summary_of p queries settings rows average last_day depth in
        (summary.total_jobs ≡ length jobs)
        × (summary.queued_jobs ≡ count_in queued jobs)
        × (summary.processing_jobs ≡ count_in processing jobs)
        × (summary.retrying_jobs ≡ count_in retrying jobs)
        × (summary.completed_jobs ≡ count_in completed jobs)
        × (summary.failed_jobs ≡ count_in failed jobs)
        × ((summary.approximate_success_rate ≡ none)
            ↔ (count_in completed jobs + count_in failed jobs ≡ 0))
  unfolding summary_of success_rate
  summary_of-Tallied rows jobs average last_day depth grouped =
      let q = grouped-count rows jobs queued grouped in
      let r = grouped-count rows jobs processing grouped in
      let t = grouped-count rows jobs retrying grouped in
      let c = grouped-count rows jobs completed grouped in
      let f = grouped-count rows jobs failed grouped in
      (omega (arith, q, r, t, c, f, count_in-total jobs), q, r, t, c, f, ground (arith))
