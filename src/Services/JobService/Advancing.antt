-- ===== src/Services/JobService/Advancing.antt =====
-- The operations of app/services/job_service.py move the committed rows along their lives, whether
-- they return or raise, and whatever a commit that raises has done.
use async_ai_document_pipeli.Prelude.{
  subst, ℕ, ◌+◌, ◌-◌, ◌≡◌, refl, sym, ◌∙◌, ap, inl, inr, true, false, Bool-cases, Option, none,
  some, [], ◌∷◌, ◌++◌, String, arith,
}
use async_ai_document_pipeli.Core.Exec.{Outcome, ok, raised}
use async_ai_document_pipeli.Db.Models.{Uuid, ProcessingJob}
use async_ai_document_pipeli.Db.Session.{update_job}
use async_ai_document_pipeli.Platform.{Platform}
use async_ai_document_pipeli.Platform.Laws.{DbLaws}
use async_ai_document_pipeli.Platform.World.{World}
use async_ai_document_pipeli.Services.JobService.{
  attempt_duration, is_transition_allowed, is_claimable, claimed_by, seconds,
}
use async_ai_document_pipeli.Services.JobService.Advance.{
  Advances, Advances-eq, Advances-same, Advances-trans, commit-Advances,
}
use async_ai_document_pipeli.Services.JobService.Lifecycle.{RowStep}
use async_ai_document_pipeli.Services.JobService.Operations.{
  claim_job, mark_completed, completed_with, retrying_with, failed_with, requeued_at, mark_failed,
  mark_retrying, reset_for_manual_retry,
}
use async_ai_document_pipeli.Services.JobService.Performed.{HasRoom}
use async_ai_document_pipeli.Services.JobService.Refused.{
  Operation, complete, retry, fail, requeue, target, perform, commits, operation_refused,
}

module _ {p : Platform} (job : ProcessingJob) (w : World p) where
  abbrev now : ℕ
  now = (p.env.utcnow w.env).0

  abbrev ms : Option ℕ
  ms = attempt_duration p.env job.started_at now

  -- What an operation assigns to the job.
  abbrev assigned : Operation → ProcessingJob → ProcessingJob
  assigned (complete flag) = completed_with now ms
  assigned (retry message) = retrying_with (job.retry_count + 1) message
  assigned (fail message) = failed_with now ms message
  assigned requeue = requeued_at now

  -- An operation that is allowed ends in the commit of its assignments.
  perform-db :
      (operation : Operation)
      → commits operation ≡ true
      → is_transition_allowed job.status (target operation) ≡ true
      → (perform operation job w).1.db
        ≡ (p.db.commit (w.session ++ update_job job.id (assigned operation) ∷ []) w.db).1
  unfolding mark_completed mark_retrying mark_failed reset_for_manual_retry
  perform-db (complete true) c h = ground arith
  perform-db (complete false) c h = cc
  perform-db (retry message) c h = ground arith
  perform-db (fail message) c h = ground arith
  perform-db requeue c h = ground arith

  assigned-RowStep :
      (operation : Operation)
      → HasRoom operation job
      → is_transition_allowed job.status (target operation) ≡ true
      → RowStep job (assigned operation job)
  assigned-RowStep (complete flag) room h = RowStep.complete job now ms h
  assigned-RowStep (retry message) room h = RowStep.retry job message h room
  assigned-RowStep (fail message) room h = RowStep.fail job now ms message h
  assigned-RowStep requeue room h = RowStep.requeue job now h

module _ {p : Platform} (laws : DbLaws p) where
  -- Whether it returns or raises, an operation that commits a loaded job advances the rows.
  pub perform-Advances :
      (operation : Operation) (job : ProcessingJob) (w : World p)
      → commits operation ≡ true
      → HasRoom operation job
      → w.session ≡ []
      → p.db.job w.db job.id ≡ some job
      → Advances p w.db (perform operation job w).1.db
  perform-Advances operation job w c room clean loaded =
      elim (Bool-cases (is_transition_allowed job.status (target operation))) [
        | inr refused ↦ Advances-eq p (
            ap (λ (r : Outcome ProcessingJob × World p). r.1.db)
              (operation_refused operation job w refused))
        | inl allowed ↦
            let changes = update_job job.id (assigned job w operation) ∷ [] in
            let ends : (perform operation job w).1.db ≡ (p.db.commit changes w.db).1 =
              perform-db job w operation c allowed
              ∙ ap (λ s. (p.db.commit (s ++ changes) w.db).1) clean in
            rw ends (
              commit-Advances laws changes w.db job (assigned job w operation) (λ id row. refl)
                loaded (assigned-RowStep job w operation room allowed) (p.db.commit changes w.db).0
                refl)
      ]

  module _ (id : Uuid) (consumer : String) (stale : ℕ) (w : World p) where
    abbrev cutoff : ℕ
    cutoff = (p.env.utcnow w.env).0 - seconds stale

    abbrev claim : ProcessingJob → ProcessingJob
    claim = claimed_by (p.env.utcnow w.env).0 consumer

    abbrev db_selected : p.Db
    db_selected = (p.db.select_job id w.db).1

    abbrev db_claimed : p.Db
    db_claimed = (p.db.commit (update_job id claim ∷ []) db_selected).1

    -- The database after a claim whose commit has this outcome.
    abbrev after_commit : Outcome (Unit {0}) → p.Db
    after_commit (ok _) = (p.db.select_job id db_claimed).1
    after_commit (raised _) = db_claimed

    -- Without a claimable row nothing is committed; with one, its claim is.
    claim_job-idle :
        (r : Outcome (Option ProcessingJob))
        → (p.db.select_job id w.db).0 ≡ r
        → ((row : ProcessingJob) → ¬ ((r ≡ ok (some row)) × (is_claimable cutoff row ≡ true)))
        → (claim_job id consumer stale w).1.db ≡ db_selected
    unfolding claim_job
    claim_job-idle (raised e) s busy = ground arith
    claim_job-idle (ok none) s busy = ground arith
    claim_job-idle (ok (some row)) s busy = elim (Bool-cases (is_claimable cutoff row)) [
      | inl able ↦ absurd (busy row (refl, able))
      | inr unable ↦ ground arith
    ]

    claim_job-taken :
        (row : ProcessingJob) (r : Outcome (Unit {0}))
        → w.session ≡ []
        → (p.db.select_job id w.db).0 ≡ ok (some row)
        → is_claimable cutoff row ≡ true
        → (p.db.commit (update_job id claim ∷ []) db_selected).0 ≡ r
        → (claim_job id consumer stale w).1.db ≡ after_commit r
    unfolding claim_job
    claim_job-taken row (ok tt) clean s able c = ground arith
    claim_job-taken row (raised e) clean s able c = ground arith

    selected : Advances p w.db db_selected
    selected = Advances-same p (λ other. laws.select_keeps_job id other w.db)

    committed :
        (row : ProcessingJob)
        → (p.db.select_job id w.db).0 ≡ ok (some row)
        → is_claimable cutoff row ≡ true
        → Advances p db_selected db_claimed
    committed row s able =
        let found : p.db.job w.db id ≡ some row = sym (laws.select_reads id w.db (some row) s) in
        let key = laws.job_key w.db id row found in
        commit-Advances laws (update_job id claim ∷ []) db_selected row claim
          (λ other r. rw (← key) refl)
          (subst (λ k. p.db.job db_selected k ≡ some row) (sym key)
            (laws.select_keeps_job id id w.db ∙ found))
          (RowStep.claim row cutoff (p.env.utcnow w.env).0 consumer able)
          (p.db.commit (update_job id claim ∷ []) db_selected).0 refl

    after_commit-Advances : (r : Outcome (Unit {0})) → Advances p db_claimed (after_commit r)
    after_commit-Advances (ok tt) =
        Advances-same p (λ other. laws.select_keeps_job id other db_claimed)
    after_commit-Advances (raised e) = Advances-eq p refl

    claim_job-cases :
        (r : Outcome (Option ProcessingJob))
        → (p.db.select_job id w.db).0 ≡ r
        → w.session ≡ []
        → Advances p w.db (claim_job id consumer stale w).1.db
    claim_job-cases (raised e) s clean =
        rw (claim_job-idle (raised e) s (λ row h. cc (h.0))) selected
    claim_job-cases (ok none) s clean = rw (claim_job-idle (ok none) s (λ row h. cc (h.0))) selected
    claim_job-cases (ok (some row)) s clean = elim (Bool-cases (is_claimable cutoff row)) [
      | inl able ↦
          let r = (p.db.commit (update_job id claim ∷ []) db_selected).0 in
          rw (claim_job-taken row r clean s able refl) (
            Advances-trans p selected
              (Advances-trans p (committed row s able) (after_commit-Advances r)))
      | inr unable ↦ rw (claim_job-idle (ok (some row)) s (λ row' h. ground arith)) selected
    ]

    -- So does a claim, with nothing pending before it.
    pub claim_job-Advances : w.session ≡ [] → Advances p w.db (claim_job id consumer stale w).1.db
    claim_job-Advances clean = claim_job-cases (p.db.select_job id w.db).0 refl clean
