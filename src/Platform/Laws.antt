-- ===== src/Platform/Laws.antt =====
-- What the program relies on of the platform.
use async_ai_document_pipeli.Prelude.{◌≡◌, ◌⊎◌, true, Option, some, List, [], ◌∷◌, String}
use async_ai_document_pipeli.Core.Exec.{ok, raised}
use async_ai_document_pipeli.Core.Errors.{Exn, isinstance}
use async_ai_document_pipeli.Db.Models.{Uuid, ProcessingJob}
use async_ai_document_pipeli.Db.Session.{Change, insert_job, job_after, result_after}
use async_ai_document_pipeli.Platform.{Platform}

-- PostgreSQL behind SQLAlchemy: a row is found under its key, a SELECT reads the committed rows, a COMMIT applies all of the changes or none of
-- them, and the keys are unique.
abbrev pub integrity_error : String
integrity_error = "sqlalchemy.exc.IntegrityError"

pub record DbLaws (p : Platform) : Type 0 where
  pub job_key :
      (db : p.Db) (id : Uuid) (row : ProcessingJob) → p.db.job db id ≡ some row → row.id ≡ id
  pub select_reads :
      (id : Uuid) (db : p.Db) (row : Option ProcessingJob)
      → (p.db.select_job id db).0 ≡ ok row
      → row ≡ p.db.job db id
  pub select_keeps_job :
      (id other : Uuid) (db : p.Db) → p.db.job (p.db.select_job id db).1 other ≡ p.db.job db other
  pub select_keeps_result :
      (id other : Uuid) (db : p.Db)
      → p.db.result (p.db.select_job id db).1 other ≡ p.db.result db other
  pub commit_job :
      (changes : List Change) (db : p.Db) (id : Uuid)
      → (p.db.commit changes db).0 ≡ ok tt
      → p.db.job (p.db.commit changes db).1 id ≡ job_after changes id (p.db.job db id)
  pub commit_result :
      (changes : List Change) (db : p.Db) (id : Uuid)
      → (p.db.commit changes db).0 ≡ ok tt
      → p.db.result (p.db.commit changes db).1 id ≡ result_after changes id (p.db.result db id)
  -- A commit that raises has applied all of the changes or none: a connection may be lost after
  -- the server has committed.
  pub commit_atomic :
      (changes : List Change) (db : p.Db) (id : Uuid) (e : Exn)
      → (p.db.commit changes db).0 ≡ raised e
      → ((p.db.job (p.db.commit changes db).1 id ≡ p.db.job db id)
          × (p.db.result (p.db.commit changes db).1 id ≡ p.db.result db id))
        ⊎ ((p.db.job (p.db.commit changes db).1 id ≡ job_after changes id (p.db.job db id))
            × (p.db.result (p.db.commit changes db).1 id
                ≡ result_after changes id (p.db.result db id)))
  -- The primary key: where there is a row with the key of a new job, the insert is refused.
  pub duplicate_key :
      (job row : ProcessingJob) (db : p.Db) (id : Uuid)
      → p.db.job db job.id ≡ some row
      → p.db.job (p.db.commit (insert_job job ∷ []) db).1 id ≡ p.db.job db id
  -- A violated constraint applies nothing.
  pub integrity_job :
      (changes : List Change) (db : p.Db) (id : Uuid) (e : Exn)
      → (p.db.commit changes db).0 ≡ raised e
      → isinstance e integrity_error ≡ true
      → (p.db.job (p.db.commit changes db).1 id ≡ p.db.job db id)
        × (p.db.result (p.db.commit changes db).1 id ≡ p.db.result db id)
