-- ===== src/Services/JobService/Rows.antt =====
-- How the operations of app/services/job_service.py move a row.
use async_ai_document_pipeli.Prelude.{
  ℕ, ◌-◌, ◌≡◌, sym, true, none, some, List, [], ◌∷◌, String, arith, ==_refl,
}
use async_ai_document_pipeli.Core.Exec.{ok}
use async_ai_document_pipeli.Db.Models.{Uuid, ProcessingJob}
use async_ai_document_pipeli.Db.Session.{Change, update_job}
use async_ai_document_pipeli.Platform.{Platform}
use async_ai_document_pipeli.Platform.Laws.{DbLaws}
use async_ai_document_pipeli.Platform.World.{World}
use async_ai_document_pipeli.Services.JobService.{is_claimable, claimed_by, seconds}
use async_ai_document_pipeli.Services.JobService.Operations.{claim_job}

module _ {p : Platform} (laws : DbLaws p) (w : World p) (id : Uuid) (consumer : String)
    (stale : ℕ) where
  pub claim_job-none :
      w.session ≡ []
      → (claim_job id consumer stale w).0 ≡ ok none
      → (other : Uuid) → p.db.job (claim_job id consumer stale w).1.db other ≡ p.db.job w.db other
  unfolding claim_job
  claim_job-none s h other = ground (arith, laws.select_keeps_job id other w.db)

  abbrev db_selected : p.Db
  db_selected = (p.db.select_job id w.db).1

  abbrev pub now : ℕ
  now = (p.env.utcnow w.env).0

  abbrev update : List Change
  update = update_job id (claimed_by now consumer) ∷ []

  abbrev db_claimed : p.Db
  db_claimed = (p.db.commit update db_selected).1

  -- The statements that a successful claim has run.
  claim_job-inv :
      {job : ProcessingJob}
      → w.session ≡ []
      → (claim_job id consumer stale w).0 ≡ ok (some job)
      → (row : ProcessingJob) × ((p.db.select_job id w.db).0 ≡ ok (some row))
        × (is_claimable (now - seconds stale) row ≡ true)
        × ((p.db.commit update db_selected).0 ≡ ok tt)
        × ((p.db.select_job id db_claimed).0 ≡ ok (some job))
        × ((claim_job id consumer stale w).1.db ≡ (p.db.select_job id db_claimed).1)
  unfolding claim_job
  claim_job-inv s h = ground arith

  -- If a claim with nothing pending in its session returns a job, then the database held a
  -- claimable row for it, the job is that row with the claim's state, instant and consumer, and
  -- the database holds that job now.
  pub claim_job-some :
      {job : ProcessingJob}
      → w.session ≡ []
      → (claim_job id consumer stale w).0 ≡ ok (some job)
      → (row : ProcessingJob) × (p.db.job w.db id ≡ some row)
        × (is_claimable (now - seconds stale) row ≡ true)
        × (job ≡ claimed_by now consumer row)
        × (p.db.job (claim_job id consumer stale w).1.db id ≡ some job)
  claim_job-some {job} s h =
      let (row, selected, able, committed, again, db_after) = claim_job-inv s h in
      let before : some row ≡ p.db.job w.db id = laws.select_reads id w.db (some row) selected in
      let written = laws.commit_job update db_selected id committed in
      let read = laws.select_reads id db_claimed (some job) again in
      let kept = laws.select_keeps_job id id w.db in
      let last = laws.select_keeps_job id id db_claimed in
      (row, sym before, able, ground (arith, ==_refl id), ground (arith, ==_refl id))

  pub claim_job-session :
      {job : ProcessingJob}
      → (claim_job id consumer stale w).0 ≡ ok (some job)
      → (claim_job id consumer stale w).1.session ≡ []
  unfolding claim_job
  claim_job-session h = ground arith
