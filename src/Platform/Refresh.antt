-- ===== src/Platform/Refresh.antt =====
-- `session.refresh` of SQLAlchemy: a loaded object is read again.
use async_ai_document_pipeli.Prelude.{none, some, [], ◌∷◌, ◌≡◌, arith}
use async_ai_document_pipeli.Core.Errors.{Exn, foreign}
use async_ai_document_pipeli.Core.Exec.{ok, Exec, pure, raise, ◌>>=◌}
use async_ai_document_pipeli.Core.Exec.Inversion.{>>=-ok, ok-injective}
use async_ai_document_pipeli.Db.Models.{Uuid, Document, ProcessingJob}
use async_ai_document_pipeli.Platform.{Platform}
use async_ai_document_pipeli.Platform.Laws.{DbLaws}
use async_ai_document_pipeli.Platform.World.{World, select_job}

-- The exception of `session.refresh` on a row that is gone.
abbrev pub refresh_error : Exn
refresh_error = foreign (record {
  type_name = "InvalidRequestError";
  classes = "sqlalchemy.exc.InvalidRequestError" ∷ "sqlalchemy.exc.SQLAlchemyError" ∷ [];
  text = "Could not refresh instance";
})

module _ {p : Platform} where
  -- `session.refresh(job)`
  unfoldable pub refresh : ProcessingJob → Exec (World p) ProcessingJob
  refresh job = do
    row ← select_job job.id
    elim row [ none ↦ raise refresh_error | some fresh ↦ pure fresh ]

  -- `session.refresh(document)`: a document is read with the row of its job.
  unfoldable pub refresh_document : ProcessingJob → Exec (World p) Document
  refresh_document job = do fresh ← refresh job; pure fresh.document

module _ {p : Platform} (laws : DbLaws p) where
  pub refresh-ok :
      (job : ProcessingJob) (w : World p) {fresh : ProcessingJob}
      → (refresh job w).0 ≡ ok fresh
      → (p.db.job w.db job.id ≡ some fresh)
        × ((refresh job w).1.session ≡ w.session)
        × (p.db.job (refresh job w).1.db job.id ≡ some fresh)
  unfolding refresh select_job
  refresh-ok job w {fresh} h =
      ground (
        arith,
        laws.select_reads job.id w.db (some fresh),
        laws.select_keeps_job job.id job.id w.db,
      )

  pub refresh-same :
      (job : ProcessingJob) (w : World p) (id : Uuid)
      → p.db.job (refresh job w).1.db id ≡ p.db.job w.db id
  unfolding refresh select_job
  refresh-same job w id = ground (arith, laws.select_keeps_job job.id id w.db)

  pub refresh_document-ok :
      (job : ProcessingJob) (w : World p) {document : Document}
      → (refresh_document job w).0 ≡ ok document
      → (row : ProcessingJob) × (p.db.job w.db job.id ≡ some row)
        × (row.document ≡ document)
        × ((refresh_document job w).1.session ≡ w.session)
        × (p.db.job (refresh_document job w).1.db job.id ≡ some row)
  unfolding refresh_document
  refresh_document-ok job w h =
      let (row, got, rest, after) = >>=-ok (refresh job) (λ fresh. pure fresh.document) w h in
      let (found, session, still) = refresh-ok job w got in
      (row, found, ok-injective rest, rw after session, rw after still)

  pub refresh_document-same :
      (job : ProcessingJob) (w : World p) (id : Uuid)
      → p.db.job (refresh_document job w).1.db id ≡ p.db.job w.db id
  unfolding refresh_document refresh select_job
  refresh_document-same job w id = ground (arith, laws.select_keeps_job job.id id w.db)
