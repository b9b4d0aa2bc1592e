-- ===== src/Worker/Processor/Unclaimed.antt =====
-- `process` of app/worker/processor.py on a job that it cannot claim.
use async_ai_document_pipeli.Prelude.{
  ◌-◌, ◌≡◌, refl, sym, ◌∙◌, false, none, some, Option, [], ℕ, String, arith,
}
use async_ai_document_pipeli.Core.Exec.{Outcome, ok, raised, continue}
use async_ai_document_pipeli.Core.Exec.Inversion.{ok-injective}
use async_ai_document_pipeli.Core.Settings.{Settings}
use async_ai_document_pipeli.Db.Models.{Uuid, ProcessingJob}
use async_ai_document_pipeli.Platform.{Platform}
use async_ai_document_pipeli.Platform.Laws.{DbLaws}
use async_ai_document_pipeli.Platform.World.{World}
use async_ai_document_pipeli.Services.JobService.{is_claimable, seconds}
use async_ai_document_pipeli.Services.JobService.Operations.{claim_job}
use async_ai_document_pipeli.Services.Queue.{DeliveredEvent}
use async_ai_document_pipeli.Worker.Processor.{skipped, after_claim, with_session, process}

-- A call that ended with a value or an exception, and changed nothing that its caller sees.
pub record Inert (p : Platform) {A : Type 0} (w w' : World p) (r : Outcome A) (a : A) : Type 0 where
  pub jobs : (other : Uuid) → p.db.job w'.db other ≡ p.db.job w.db other
  pub results : (other : Uuid) → p.db.result w'.db other ≡ p.db.result w.db other
  pub redis : w'.redis ≡ w.redis
  pub outcome : (b : A) → r ≡ ok b → b ≡ a

module _ (p : Platform) (laws : DbLaws p) (w : World p) (id : Uuid) (consumer : String)
    (stale : ℕ) where
  claim_job-Inert :
      (row : ProcessingJob)
      → p.db.job w.db id ≡ some row
      → is_claimable ((p.env.utcnow w.env).0 - seconds stale) row ≡ false
      → Inert p w (claim_job id consumer stale w).1 (claim_job id consumer stale w).0 none
  unfolding claim_job
  claim_job-Inert row found busy =
      let reads : (o : Option ProcessingJob) → (p.db.select_job id w.db).0 ≡ ok o → o ≡ some row =
        λ o e. laws.select_reads id w.db o e ∙ found in
      record {
        jobs = λ other. grind (arith, reads, laws.select_keeps_job);
        results = λ other. grind (arith, reads, laws.select_keeps_result);
        redis = grind (arith, reads);
        outcome = λ b h. grind (arith, reads);
      }

module _ (p : Platform) (settings : Settings p.Float) (delivered : DeliveredEvent)
    (w : World p) where
  after_claim-Inert :
      (r : Outcome (Option ProcessingJob)) (w' : World p)
      → Inert p w w' r none
      → Inert p w
          (continue r (after_claim p settings delivered) w').1
          (continue r (after_claim p settings delivered) w').0
          skipped
  unfolding after_claim
  after_claim-Inert (ok none) w' inert = record {
    jobs = inert.jobs;
    results = inert.results;
    redis = inert.redis;
    outcome = λ b h. sym (ok-injective h);
  }
  after_claim-Inert (ok (some job)) w' inert = absurd (cc (inert.outcome (some job) refl))
  after_claim-Inert (raised e) w' inert = record {
    jobs = inert.jobs;
    results = inert.results;
    redis = inert.redis;
    outcome = λ b h. cc;
  }

  -- A job that is not claimable is left alone, and its event is skipped.
  pub process-Inert :
      (laws : DbLaws p) (consumer : String) (row : ProcessingJob)
      → p.db.job w.db delivered.event.job_id ≡ some row
      → is_claimable ((p.env.utcnow w.env).0 - seconds settings.stale_processing_seconds) row
        ≡ false
      → Inert p w
          (process p settings consumer delivered w).1
          (process p settings consumer delivered w).0
          skipped
  unfolding process with_session
  process-Inert laws consumer row found busy =
      let w₀ : World p = record w { session = [] } in
      let id = delivered.event.job_id in
      let stale = settings.stale_processing_seconds in
      let claim = claim_job id consumer stale w₀ in
      let inert = claim_job-Inert p laws w₀ id consumer stale row found busy in
      let inert' : Inert p w claim.1 claim.0 none = record {
        jobs = inert.jobs;
        results = inert.results;
        redis = inert.redis;
        outcome = inert.outcome;
      } in
      let after = after_claim-Inert claim.0 claim.1 inert' in
      record {
        jobs = after.jobs;
        results = after.results;
        redis = after.redis;
        outcome = after.outcome;
      }
