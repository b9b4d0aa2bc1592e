-- ===== src/Services/JobService/Advance.antt =====
-- How a commit of app/services/job_service.py moves the committed rows, also when it raises.
use async_ai_document_pipeli.Prelude.{
  ◌≡◌, refl, sym, subst, ◌∙◌, inl, inr, Bool-cases, Option, some, List, arith, ◌==◌, ==_iff,
  if◌then◌else◌,
}
use async_ai_document_pipeli.Core.Errors.{Exn}
use async_ai_document_pipeli.Core.Exec.{
  Outcome, ok, raised, Exec, continue, ◌>>=◌, handle_with, try_except,
}
use async_ai_document_pipeli.Db.Models.{Uuid, ProcessingJob}
use async_ai_document_pipeli.Db.Session.{Change, map_row, job_after}
use async_ai_document_pipeli.Platform.{Platform}
use async_ai_document_pipeli.Platform.Laws.{DbLaws}
use async_ai_document_pipeli.Platform.World.{World}
use async_ai_document_pipeli.Services.JobService.Lifecycle.{RowStep, RowReach}

pub RowReach-trans : {a b c : ProcessingJob} → RowReach a b → RowReach b c → RowReach a c
RowReach-trans r RowReach.here = r
RowReach-trans r (RowReach.next s t) = RowReach.next (RowReach-trans r s) t

module _ (p : Platform) where
  -- The row of a job that there was is still there, some steps of its life later.
  abbrev pub After : p.Db → Uuid → ProcessingJob → Type 0
  After db id row = (row' : ProcessingJob) × (p.db.job db id ≡ some row') × RowReach row row'

  -- So for every job.
  abbrev pub Advances : p.Db → p.Db → Type 0
  Advances db db' = (id : Uuid) (row : ProcessingJob) → p.db.job db id ≡ some row → After db' id row

  pub Advances-same :
      {db db' : p.Db} → ((id : Uuid) → p.db.job db' id ≡ p.db.job db id) → Advances db db'
  Advances-same same id row h = (row, same id ∙ h, RowReach.here)

  pub Advances-eq : {db db' : p.Db} → db' ≡ db → Advances db db'
  Advances-eq e id row h = (row, rw e h, RowReach.here)

  pub Advances-trans : {a b c : p.Db} → Advances a b → Advances b c → Advances a c
  Advances-trans f g id row h =
      let (row', h', r) = f id row h in
      let (row'', h'', s) = g id row' h' in (row'', h'', RowReach-trans r s)

module _ {p : Platform} where
  -- The rows advance through a sequence if they do through its parts.
  module _ {A B : Type 0} (f : A → Exec (World p) B) (w : World p) where
    continue-Advances :
        (r : Outcome A) (v : World p)
        → Advances p w.db v.db
        → ((a : A) → r ≡ ok a → Advances p v.db (f a v).1.db)
        → Advances p w.db (continue r f v).1.db
    continue-Advances (ok a) v first second = Advances-trans p first (second a refl)
    continue-Advances (raised e) v first second = first

    pub >>=-Advances :
        (m : Exec (World p) A)
        → Advances p w.db (m w).1.db
        → ((a : A) → (m w).0 ≡ ok a → Advances p (m w).1.db (f a (m w).1).1.db)
        → Advances p w.db ((m >>= f) w).1.db
    >>=-Advances m first second = continue-Advances (m w).0 (m w).1 first second

  module _ {A : Type 0} (h : Exn → Exec (World p) A) (w : World p) where
    handle_with-Advances :
        (r : Outcome A) (v : World p)
        → Advances p w.db v.db
        → ((e : Exn) → r ≡ raised e → Advances p v.db (h e v).1.db)
        → Advances p w.db (handle_with r h v).1.db
    handle_with-Advances (ok a) v first second = first
    handle_with-Advances (raised e) v first second = Advances-trans p first (second e refl)

    pub try_except-Advances :
        (m : Exec (World p) A)
        → Advances p w.db (m w).1.db
        → ((e : Exn) → (m w).0 ≡ raised e → Advances p (m w).1.db (h e (m w).1).1.db)
        → Advances p w.db (try_except m h w).1.db
    try_except-Advances m first second = handle_with-Advances (m w).0 (m w).1 first second

-- What is pending is one update of a row, whatever else it holds.
abbrev pub Updates : List Change → Uuid → (ProcessingJob → ProcessingJob) → Type 0
Updates changes key f =
    (id : Uuid) (row : Option ProcessingJob)
    → job_after changes id row ≡ (if key == id then map_row f row else row)

module _ {p : Platform} (laws : DbLaws p) where
  -- A commit that was applied.
  applied :
      (changes : List Change) (db db' : p.Db) (job : ProcessingJob)
      (f : ProcessingJob → ProcessingJob)
      → Updates changes job.id f
      → p.db.job db job.id ≡ some job
      → RowStep job (f job)
      → (id : Uuid) (row : ProcessingJob) → p.db.job db id ≡ some row
      → p.db.job db' id ≡ job_after changes id (p.db.job db id)
      → After p db' id row
  applied changes db db' job f updates loaded step id row h e = elim (Bool-cases (job.id == id)) [
    | inl here ↦
        let key = (==_iff job.id id).0 here in
        let same : some row ≡ some job = sym h ∙ subst (λ k. p.db.job db k ≡ some job) key loaded in
        let row_is : row ≡ job = ground arith in
        (
          f job,
          e ∙ updates id (p.db.job db id) ∙ rw (here, h, row_is) refl,
          subst (λ r. RowReach r (f job)) (sym row_is) (RowReach.next RowReach.here step),
        )
    | inr other ↦ (row, e ∙ updates id (p.db.job db id) ∙ rw (other, h) refl, RowReach.here)
  ]

  -- A commit of an update that is a step of the row's life, whether it returns or raises.
  pub commit-Advances :
      (changes : List Change) (db : p.Db) (job : ProcessingJob) (f : ProcessingJob → ProcessingJob)
      → Updates changes job.id f
      → p.db.job db job.id ≡ some job
      → RowStep job (f job)
      → (r : Outcome (Unit {0})) → (p.db.commit changes db).0 ≡ r
      → Advances p db (p.db.commit changes db).1
  commit-Advances changes db job f updates loaded step (ok tt) done id row h =
      applied changes db (p.db.commit changes db).1 job f updates loaded step id row h
        (laws.commit_job changes db id done)
  commit-Advances changes db job f updates loaded step (raised e) done id row h =
      elim (laws.commit_atomic changes db id e done) [
        | inl (none_applied, _) ↦ (row, none_applied ∙ h, RowReach.here)
        | inr (all_applied, _) ↦
            applied changes db (p.db.commit changes db).1 job f updates loaded step id row h
              all_applied
      ]
