-- ===== src/Services/JobService/Exclusive.antt =====
-- `claim_job` of app/services/job_service.py as a barrier between workers.
use async_ai_document_pipeli.Prelude.{
  ℕ, ◌+◌, ◌-◌, ◌≤◌, ◌<◌, ◌≡◌, ◌⊎◌, inl, inr, Bool-cases, Option-cases, ltb, true, false, some, [],
  String, arith, sym, ap, ◌∙◌,
}
use async_ai_document_pipeli.Core.Enums.{queued, processing, retrying, status_eq}
use async_ai_document_pipeli.Core.Exec.{ok}
use async_ai_document_pipeli.Db.Models.{Uuid, ProcessingJob}
use async_ai_document_pipeli.Platform.{Platform}
use async_ai_document_pipeli.Platform.Laws.{DbLaws}
use async_ai_document_pipeli.Platform.World.{World}
use async_ai_document_pipeli.Services.JobService.{is_claimable, claimed_by, seconds}
use async_ai_document_pipeli.Services.JobService.Operations.{claim_job}
use async_ai_document_pipeli.Services.JobService.Rows.{claim_job-some}

-- A row that meets the condition of the claim is queued or retrying, or it is processing since an
-- instant before the cutoff.
pub claim-sources :
    (cutoff : ℕ) (job : ProcessingJob)
    → is_claimable cutoff job ≡ true
    → (job.status ≡ queued)
      ⊎ (job.status ≡ retrying)
      ⊎ (job.status ≡ processing) × ((start : ℕ) × (job.started_at ≡ some start) × (start < cutoff))
unfolding is_claimable
claim-sources cutoff job h = elim (Option-cases job.started_at) [
  | inl unset ↦ ground arith
  | inr (start, set) ↦ elim (Bool-cases (ltb start cutoff)) [
    | inl old ↦ elim (Bool-cases (status_eq job.status processing)) [
      | inl busy ↦ inr (inr (ground arith, (start, set, ground arith)))
      | inr free ↦ ground arith
    ]
    | inr new ↦ ground arith
  ]
]

not_claimable_after :
    (now later stale : ℕ) (consumer : String) (job : ProcessingJob)
    → later ≤ now + seconds stale
    → is_claimable (later - seconds stale) (claimed_by now consumer job) ≡ false
unfolding is_claimable
not_claimable_after now later stale consumer job h = ground arith

-- After a claim of a job has succeeded, a claim by any worker on the database that the first one
-- left does not succeed, as long as the second worker's clock is not past the first claim's
-- instant by more than the time after which a claim is stale. Both sessions have nothing pending.
pub claim-exclusive :
    (p : Platform) (laws : DbLaws p) (w v : World p) (id : Uuid) (first second : String) (stale : ℕ)
    (job job' : ProcessingJob)
    → w.session ≡ []
    → v.session ≡ []
    → (claim_job id first stale w).0 ≡ ok (some job)
    → v.db ≡ (claim_job id first stale w).1.db
    → (p.env.utcnow v.env).0 ≤ (p.env.utcnow w.env).0 + seconds stale
    → ¬ ((claim_job id second stale v).0 ≡ ok (some job'))
claim-exclusive p laws w v id first second stale job job' clean clean' claimed same soon again =
    let (row, found, able, made, stored) = claim_job-some laws w id first stale clean claimed in
    let (row', found', able', made', stored') =
      claim_job-some laws v id second stale clean' again in
    let busy =
      not_claimable_after (p.env.utcnow w.env).0 (p.env.utcnow v.env).0 stale first row soon in
    let seen : some row' ≡ some job = sym found' ∙ ap (λ db. p.db.job db id) same ∙ stored in
    ground arith
