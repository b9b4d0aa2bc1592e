-- ===== src/Services/JobService/Created.antt =====
-- The rows that `create_document_and_job` of app/services/job_service.py leaves.
use async_ai_document_pipeli.Prelude.{
  ◌≡◌, refl, sym, ◌∙◌, ℕ, Option, none, some, List, [], ◌∷◌, ◌++◌, String, subst, ap, ==_refl, ◌==◌,
  ==_iff, Option-cases, Bool-cases, inl, inr, false, arith,
}
use async_ai_document_pipeli.Core.Enums.{queued, DocumentType}
use async_ai_document_pipeli.Core.Exec.{Outcome, ok, raised, Exec, pure, ◌>>=◌}
use async_ai_document_pipeli.Core.Exec.Inversion.{>>=-ok, ok-injective}
use async_ai_document_pipeli.Db.Models.{StoredFile, Document, ProcessingJob}
use async_ai_document_pipeli.Db.Session.{Change, insert_job, job_after}
use async_ai_document_pipeli.Platform.{Platform}
use async_ai_document_pipeli.Platform.Laws.{DbLaws}
use async_ai_document_pipeli.Platform.World.{World, utcnow, uuid4, stage, commit, select_job}
use async_ai_document_pipeli.Platform.Refresh.{
  refresh, refresh_document, refresh-ok, refresh-same, refresh_document-ok, refresh_document-same,
}
use async_ai_document_pipeli.Services.JobService.Advance.{
  Advances, Advances-same, Advances-eq, >>=-Advances,
}
use async_ai_document_pipeli.Services.JobService.Lifecycle.{RowReach}
use async_ai_document_pipeli.Services.JobService.Creation.{create_document_and_job}

-- A new document and its job, as the upload has described them.
pub record IsNew (document : Document) (job : ProcessingJob) (stored : StoredFile)
    (original_filename content_type : String) (requested : Option DocumentType) (max_retries : ℕ)
    : Type 0 where
  pub of_document : job.document ≡ document
  pub named : document.original_filename ≡ original_filename
  pub typed : document.content_type ≡ content_type
  pub placed : document.storage_path ≡ stored.storage_path
  pub summed : document.checksum ≡ stored.checksum
  pub sized : document.file_size ≡ stored.size
  pub asked : document.requested_document_type ≡ requested
  pub is_queued : job.status ≡ queued
  pub untried : job.retry_count ≡ 0
  pub budget : job.max_retries ≡ max_retries
  pub unstamped : job.completed_at ≡ none

some-same : {a b : ProcessingJob} → some a ≡ some b → a ≡ b
some-same h = cc

module _ {p : Platform} (laws : DbLaws p) (stored : StoredFile)
    (original_filename content_type : String) (requested : Option DocumentType) (max_retries : ℕ)
    (w : World p) where
  abbrev created : Outcome (Document × ProcessingJob) × World p
  created = create_document_and_job stored original_filename content_type requested max_retries w

  pub create-redis : created.1.redis ≡ w.redis
  unfolding create_document_and_job uuid4 utcnow stage commit refresh refresh_document select_job
  create-redis = ground arith

  pub create-storage : created.1.storage ≡ w.storage
  unfolding create_document_and_job uuid4 utcnow stage commit refresh refresh_document select_job
  create-storage = ground arith

  abbrev document_made : Document
  document_made = record {
    id = (p.env.uuid4 w.env).0;
    original_filename = original_filename;
    stored_filename = stored.stored_filename;
    content_type = content_type;
    file_size = stored.size;
    storage_path = stored.storage_path;
    checksum = stored.checksum;
    requested_document_type = requested;
  }

  abbrev job_made : ProcessingJob
  job_made =
      let drawn = p.env.uuid4 (p.env.uuid4 w.env).1 in
      record {
        id = drawn.0;
        document = document_made;
        status = queued;
        retry_count = 0;
        max_retries = max_retries;
        error_message = none;
        queued_at = (p.env.utcnow drawn.1).0;
        started_at = none;
        completed_at = none;
        processing_duration_ms = none;
        consumer_name = none;
      }

  abbrev changes_made : List Change
  changes_made = w.session ++ insert_job job_made ∷ []

  made-IsNew :
      IsNew document_made job_made stored original_filename content_type requested max_retries
  made-IsNew = record {
    of_document = refl;
    named = refl;
    typed = refl;
    placed = refl;
    summed = refl;
    sized = refl;
    asked = refl;
    is_queued = refl;
    untried = refl;
    budget = refl;
    unstamped = refl;
  }

  made-stored :
      w.session ≡ []
      → (p.db.commit changes_made w.db).0 ≡ ok tt
      → p.db.job (p.db.commit changes_made w.db).1 job_made.id ≡ some job_made
  made-stored clean done =
      laws.commit_job changes_made w.db job_made.id done
      ∙ ap (λ s. job_after (s ++ insert_job job_made ∷ []) job_made.id (p.db.job w.db job_made.id))
          clean
      ∙ rw (==_refl job_made.id) refl

  -- The world when the rows are committed.
  abbrev w_staged : World p
  w_staged = record w {
    session = changes_made;
    env = (p.env.utcnow (p.env.uuid4 (p.env.uuid4 w.env).1).1).1;
  }

  abbrev w_committed : World p
  w_committed = (commit w_staged).1

  committed_row :
      w.session ≡ []
      → (p.db.commit changes_made w.db).0 ≡ ok tt
      → p.db.job w_committed.db job_made.id ≡ some job_made
  unfolding commit
  committed_row clean done = made-stored clean done

  -- What follows the commit.
  abbrev reread : Exec (World p) (Document × ProcessingJob)
  reread = refresh job_made >>= (λ fresh. refresh_document fresh >>= (λ saved. pure (saved, fresh)))

  create-run : created ≡ (commit >>= (λ _. reread)) w_staged
  unfolding create_document_and_job uuid4 utcnow stage
  create-run = refl

  commit-ok :
      (commit w_staged).0 ≡ ok tt
      → ((p.db.commit changes_made w.db).0 ≡ ok tt) × (w_committed.session ≡ [])
  unfolding commit
  commit-ok h = (h, rw h refl)

  -- Both objects are as they were made, and the row still is.
  reread-ok :
      {document : Document} {job : ProcessingJob}
      → w_committed.session ≡ []
      → p.db.job w_committed.db job_made.id ≡ some job_made
      → (reread w_committed).0 ≡ ok (document, job)
      → (document_made ≡ document)
        × (job_made ≡ job)
        × ((reread w_committed).1.session ≡ [])
        × (p.db.job (reread w_committed).1.db job_made.id ≡ some job_made)
  reread-ok {document} {job} emptied stored h =
      let (fresh, got, rest, after) =
        >>=-ok (refresh job_made)
          (λ fresh. refresh_document fresh >>= (λ saved. pure (saved, fresh))) w_committed h in
      let v = (refresh job_made w_committed).1 in
      let (found, session, still) = refresh-ok laws job_made w_committed got in
      let fresh_is : job_made ≡ fresh = some-same (sym stored ∙ found) in
      let (saved, read, rest', after') =
        >>=-ok (refresh_document fresh) (λ saved. pure (saved, fresh)) v rest in
      let (row, found', of_row, session', still') = refresh_document-ok laws fresh v read in
      let found_made : p.db.job v.db job_made.id ≡ some row =
        subst (λ (j : ProcessingJob). p.db.job v.db j.id ≡ some row) (sym fresh_is) found' in
      let row_is : job_made ≡ row = fresh_is ∙ some-same (sym still ∙ found_made) in
      let made : (saved, fresh) ≡ (document, job) = ok-injective rest' in
      (
        ap (λ (j : ProcessingJob). j.document) row_is
            ∙ of_row
            ∙ ap (λ (r : Document × ProcessingJob). r.0) made,
        fresh_is ∙ ap (λ (r : Document × ProcessingJob). r.1) made,
        rw (after, after') (session' ∙ session ∙ emptied),
        rw (after, after')
            (refresh_document-same laws fresh v job_made.id ∙ still ∙ sym (ap some fresh_is)),
      )

  create-cases :
      (document : Document) (job : ProcessingJob)
      → w.session ≡ []
      → created.0 ≡ ok (document, job)
      → (document_made ≡ document)
        × (job_made ≡ job)
        × (created.1.session ≡ [])
        × (p.db.job created.1.db job_made.id ≡ some job_made)
  create-cases document job clean h =
      let (_, done, rest, after) =
        >>=-ok commit (λ _. reread) w_staged
          (sym (ap (λ (r : Outcome (Document × ProcessingJob) × World p). r.0) create-run) ∙ h) in
      let (committed, emptied) = commit-ok done in
      rw (create-run, after) (reread-ok emptied (committed_row clean committed) rest)

  -- If it returns with nothing pending before, the row of the job is the object that was returned.
  pub create-IsNew :
      (document : Document) (job : ProcessingJob)
      → w.session ≡ []
      → created.0 ≡ ok (document, job)
      → IsNew document job stored original_filename content_type requested max_retries
        × (p.db.job created.1.db job.id ≡ some job)
        × (created.1.session ≡ [])
  create-IsNew document job clean h =
      let (document_is, job_is, emptied, stored_row) = create-cases document job clean h in
      (
        subst
            (λ (r : Document × ProcessingJob).
              IsNew r.0 r.1 stored original_filename content_type requested max_retries)
            (λ i. (document_is i, job_is i)) made-IsNew,
        subst (λ (j : ProcessingJob). p.db.job created.1.db j.id ≡ some j) job_is stored_row,
        emptied,
      )

  committed-db : w.session ≡ [] → w_committed.db ≡ (p.db.commit (insert_job job_made ∷ []) w.db).1
  unfolding commit
  committed-db clean = ap (λ s. (p.db.commit (s ++ insert_job job_made ∷ []) w.db).1) clean

  -- A new row comes beside the others: none of them is lost or changed.
  inserted-Advances :
      (r : Outcome (Unit {0}))
      → (p.db.commit (insert_job job_made ∷ []) w.db).0 ≡ r
      → Advances p w.db (p.db.commit (insert_job job_made ∷ []) w.db).1
  inserted-Advances r done id row h = elim (Option-cases (p.db.job w.db job_made.id)) [
    | inr (old, taken) ↦ (row, laws.duplicate_key job_made old w.db id taken ∙ h, RowReach.here)
    | inl free ↦
        let other : (job_made.id == id) ≡ false = differs job_made.id id row free h in
        let kept : job_after (insert_job job_made ∷ []) id (p.db.job w.db id) ≡ some row =
          rw (other, h) refl in
        (row, committed r done kept, RowReach.here)
  ]
    where
      differs :
          (key other : ℕ) (found : ProcessingJob)
          → p.db.job w.db key ≡ none
          → p.db.job w.db other ≡ some found
          → (key == other) ≡ false
      differs key other found free h = elim (Bool-cases (key == other)) [
        | inr apart ↦ apart
        | inl same ↦
            let free' : p.db.job w.db other ≡ none =
              subst (λ k. p.db.job w.db k ≡ none) ((==_iff key other).0 same) free in
            cc
      ]

      committed :
          (r : Outcome (Unit {0}))
          → (p.db.commit (insert_job job_made ∷ []) w.db).0 ≡ r
          → job_after (insert_job job_made ∷ []) id (p.db.job w.db id) ≡ some row
          → p.db.job (p.db.commit (insert_job job_made ∷ []) w.db).1 id ≡ some row
      committed (ok tt) e kept = laws.commit_job (insert_job job_made ∷ []) w.db id e ∙ kept
      committed (raised x) e kept =
          elim (laws.commit_atomic (insert_job job_made ∷ []) w.db id x e) [
            | inl (same, _) ↦ same ∙ h
            | inr (all, _) ↦ all ∙ kept
          ]

  reread-Advances : Advances p w_committed.db (reread w_committed).1.db
  reread-Advances =
      >>=-Advances _ w_committed (refresh job_made)
        (Advances-same p (refresh-same laws job_made w_committed))
        (λ fresh got.
          let v = (refresh job_made w_committed).1 in
          >>=-Advances (λ saved. pure (saved, fresh)) v (refresh_document fresh)
            (Advances-same p (refresh_document-same laws fresh v))
            (λ saved read. Advances-eq p refl))

  pub create-Advances : w.session ≡ [] → Advances p w.db created.1.db
  create-Advances clean = rw create-run (
      >>=-Advances (λ _. reread) w_staged commit
        (rw (committed-db clean)
          (inserted-Advances (p.db.commit (insert_job job_made ∷ []) w.db).0 refl))
        (λ _ done. reread-Advances))
