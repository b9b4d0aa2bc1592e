-- ===== src/Services/Metrics.antt =====
-- app/services/metrics.py, over the answers of its queries.
pub mod Tallied
use async_ai_document_pipeli.Prelude.{
  ℕ, ◌+◌, ◌-◌, ◌*◌, Bool, true, false, Option, none, some, List, [], ◌∷◌, ◌==◌, if◌then◌else◌,
}
use async_ai_document_pipeli.Core.Enums.{
  JobStatus, queued, processing, retrying, completed, failed, status_eq,
}
use async_ai_document_pipeli.Core.Exec.{Outcome, Exec, pure, ◌>>=◌}
use async_ai_document_pipeli.Core.Settings.{Settings}
use async_ai_document_pipeli.Db.Models.{Instant}
use async_ai_document_pipeli.Platform.{Platform}
use async_ai_document_pipeli.Platform.World.{World, on_db, utcnow}
use async_ai_document_pipeli.Services.JobService.{seconds}
use async_ai_document_pipeli.Services.Queue.{QueueDepth}
use async_ai_document_pipeli.Services.Queue.Consuming.{depth}

-- The three statements, and the rounding of their answers.
pub record Queries (Db F : Type 0) : Type 0 where
  -- SELECT status, count(*) … GROUP BY status
  pub status_counts : Db → Outcome (List (JobStatus × ℕ)) × Db
  -- the mean of the durations that are set, as `round(float(avg), 2)` gives it
  pub average_duration : Db → Outcome (Option F) × Db
  -- the number of the jobs that were created at an instant or later
  pub created_since : Instant → Db → Outcome ℕ × Db
  -- `round(a / b, 4)`
  pub rounded_ratio : ℕ → ℕ → F

pub record MetricsSummary (F : Type 0) : Type 0 where
  pub total_jobs : ℕ
  pub queued_jobs : ℕ
  pub processing_jobs : ℕ
  pub retrying_jobs : ℕ
  pub completed_jobs : ℕ
  pub failed_jobs : ℕ
  pub average_processing_duration_ms : Option F
  pub approximate_success_rate : Option F
  pub jobs_last_24_hours : ℕ
  pub stream_length : ℕ
  pub pending : ℕ
  pub scheduled_retries : ℕ

-- Whether a dictionary made of the rows has a key.
unfoldable pub has_row : JobStatus → List (JobStatus × ℕ) → Bool
has_row status [] = false
has_row status ((key, count) ∷ rows) = if status_eq key status then true else has_row status rows

-- `by_status.get(status, 0)`: the last row of a status counts, as in a dictionary.
unfoldable pub count_of : JobStatus → List (JobStatus × ℕ) → ℕ
unfolding has_row
count_of status [] = 0
count_of status ((key, count) ∷ rows) = elim (has_row status rows) [
  | true ↦ count_of status rows
  | false ↦ if status_eq key status then count else 0
]

unfoldable pub success_rate : {F : Type 0} → (ℕ → ℕ → F) → ℕ → ℕ → Option F
success_rate rounded_ratio good terminal =
    if terminal == 0 then none else some (rounded_ratio good terminal)

module _ (p : Platform) (queries : Queries p.Db p.Float) (settings : Settings p.Float) where
  -- The summary of the answers.
  unfoldable pub summary_of :
      List (JobStatus × ℕ) → Option p.Float → ℕ → QueueDepth → MetricsSummary p.Float
  unfolding count_of success_rate
  summary_of rows average last_day depth =
      let completed_count = count_of completed rows in
      let failed_count = count_of failed rows in
      record {
        total_jobs =
            count_of queued rows
            + count_of processing rows
            + count_of retrying rows
            + completed_count
            + failed_count;
        queued_jobs = count_of queued rows;
        processing_jobs = count_of processing rows;
        retrying_jobs = count_of retrying rows;
        completed_jobs = completed_count;
        failed_jobs = failed_count;
        average_processing_duration_ms = average;
        approximate_success_rate =
            success_rate queries.rounded_ratio completed_count (completed_count + failed_count);
        jobs_last_24_hours = last_day;
        stream_length = depth.stream_length;
        pending = depth.pending;
        scheduled_retries = depth.scheduled_retries;
      }

  unfoldable pub build_metrics_summary : Exec (World p) (MetricsSummary p.Float)
  unfolding summary_of utcnow
  build_metrics_summary = do
    rows ← on_db queries.status_counts
    average ← on_db queries.average_duration
    now ← utcnow
    last_day ← on_db (queries.created_since (now - seconds (24 * 3600)))
    current ← depth p settings
    pure (summary_of rows average last_day current)
