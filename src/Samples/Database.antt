-- ===== src/Samples/Database.antt =====
-- A database in memory: the rows of the two tables, with their unique keys.
use async_ai_document_pipeli.Prelude.{
  ◌≡◌, refl, sym, ap, ◌∙◌, Option, none, some, List, [], ◌∷◌, arith, ◌==◌, if◌then◌else◌,
}
use async_ai_document_pipeli.Core.Errors.{Exn, foreign}
use async_ai_document_pipeli.Core.Exec.{Outcome, ok, raised}
use async_ai_document_pipeli.Db.Models.{Uuid, ProcessingJob, ExtractionResult}
use async_ai_document_pipeli.Db.Session.{
  Change, insert_job, update_job, insert_result, job_after, result_after, map_row,
}
use async_ai_document_pipeli.Platform.{Database}

pub record Tables : Type 0 where
  pub jobs : List ProcessingJob
  pub results : List ExtractionResult

unfoldable pub find_job : Uuid → List ProcessingJob → Option ProcessingJob
find_job id [] = none
find_job id (job ∷ jobs) = if job.id == id then some job else find_job id jobs

unfoldable pub find_result : Uuid → List ExtractionResult → Option ExtractionResult
find_result id [] = none
find_result id (r ∷ rs) = if r.job_id == id then some r else find_result id rs

-- An update that would change a row's key is refused.
unfoldable pub update_rows :
    Uuid → (ProcessingJob → ProcessingJob) → List ProcessingJob → Option (List ProcessingJob)
update_rows key f [] = some []
update_rows key f (job ∷ jobs) = elim (update_rows key f jobs) [
  | none ↦ none
  | some rest ↦
      if job.id == key
      then (if (f job).id == key then some (f job ∷ rest) else none)
      else some (job ∷ rest)
]

unfoldable pub apply_change : Change → Tables → Option Tables
unfolding find_job find_result update_rows
apply_change (insert_job job) t = elim (find_job job.id t.jobs) [
  | none ↦ some (record t { jobs = job ∷ t.jobs })
  | some old ↦ none
]
apply_change (update_job key f) t = elim (update_rows key f t.jobs) [
  | none ↦ none
  | some rows ↦ some (record t { jobs = rows })
]
apply_change (insert_result r) t = elim (find_result r.job_id t.results) [
  | none ↦ some (record t { results = r ∷ t.results })
  | some old ↦ none
]

unfoldable pub apply_changes : List Change → Tables → Option Tables
unfolding apply_change
apply_changes [] t = some t
apply_changes (change ∷ changes) t = elim (apply_change change t) [
  | none ↦ none
  | some t' ↦ apply_changes changes t'
]

abbrev pub duplicate : Exn
duplicate = foreign (record {
  type_name = "IntegrityError";
  classes = "sqlalchemy.exc.IntegrityError" ∷ "sqlalchemy.exc.DBAPIError" ∷ [];
  text = "duplicate key value violates unique constraint";
})

abbrev pub committed : Tables → Option Tables → Outcome (Unit {0}) × Tables
committed t none = (raised duplicate, t)
committed t (some t') = (ok tt, t')

unfoldable pub tables : Database Tables
unfolding find_job find_result apply_changes
tables = record {
  job = λ t id. find_job id t.jobs;
  result = λ t id. find_result id t.results;
  select_job = λ id t. (ok (find_job id t.jobs), t);
  commit = λ changes t. committed t (apply_changes changes t);
  ping = λ t. (ok tt, t);
}

find_job-key :
    (id : Uuid) (jobs : List ProcessingJob) (row : ProcessingJob)
    → find_job id jobs ≡ some row
    → row.id ≡ id
unfolding find_job
find_job-key id [] row h = cc
find_job-key id (job ∷ jobs) row h = ground (arith, find_job-key id jobs row)

find_job-update_rows :
    (key : Uuid) (f : ProcessingJob → ProcessingJob) (jobs rows : List ProcessingJob) (id : Uuid)
    → update_rows key f jobs ≡ some rows
    → find_job id rows ≡ (if key == id then map_row f (find_job id jobs) else find_job id jobs)
unfolding find_job update_rows
find_job-update_rows key f [] rows id h = ground arith
find_job-update_rows key f (job ∷ jobs) rows id h =
    grind (arith, λ (rest : List ProcessingJob). find_job-update_rows key f jobs rest id)

-- One change, then several, as the laws state them.
find_job-apply_change :
    (change : Change) (t t' : Tables) (id : Uuid)
    → apply_change change t ≡ some t'
    → find_job id t'.jobs ≡ job_after (change ∷ []) id (find_job id t.jobs)
unfolding apply_change find_job
find_job-apply_change (insert_job job) t t' id h = ground arith
find_job-apply_change (update_job key f) t t' id h =
    grind (arith, λ (rows : List ProcessingJob). find_job-update_rows key f t.jobs rows id)
find_job-apply_change (insert_result r) t t' id h = ground arith

find_result-apply_change :
    (change : Change) (t t' : Tables) (id : Uuid)
    → apply_change change t ≡ some t'
    → find_result id t'.results ≡ result_after (change ∷ []) id (find_result id t.results)
unfolding apply_change
find_result-apply_change (insert_job job) t t' id h = ground arith
find_result-apply_change (update_job key f) t t' id h = ground arith
find_result-apply_change (insert_result r) t t' id h = ground arith

job_after-cons :
    (change : Change) (changes : List Change) (id : Uuid) (row : Option ProcessingJob)
    → job_after (change ∷ changes) id row ≡ job_after changes id (job_after (change ∷ []) id row)
job_after-cons (insert_job job) changes id row = refl
job_after-cons (update_job key f) changes id row = refl
job_after-cons (insert_result r) changes id row = refl

result_after-cons :
    (change : Change) (changes : List Change) (id : Uuid) (row : Option ExtractionResult)
    → result_after (change ∷ changes) id row
      ≡ result_after changes id (result_after (change ∷ []) id row)
result_after-cons (insert_job job) changes id row = refl
result_after-cons (update_job key f) changes id row = refl
result_after-cons (insert_result r) changes id row = refl

-- A commit that succeeds has applied every change, to both tables.
pub record Applied (changes : List Change) (t t' : Tables) (id : Uuid) : Type 0 where
  pub jobs : find_job id t'.jobs ≡ job_after changes id (find_job id t.jobs)
  pub results : find_result id t'.results ≡ result_after changes id (find_result id t.results)

apply_changes-Applied :
    (changes : List Change) (t t' : Tables) (id : Uuid)
    → apply_changes changes t ≡ some t'
    → Applied changes t t' id
unfolding apply_changes
apply_changes-Applied [] t t' id h = ground arith
apply_changes-Applied (change ∷ changes) t t' id h =
    go (λ t₁. apply_changes-Applied changes t₁ t' id) (apply_change change t) refl h
  where
    go :
        ((t₁ : Tables) → apply_changes changes t₁ ≡ some t' → Applied changes t₁ t' id)
        → (o : Option Tables) → apply_change change t ≡ o
        → elim o [ none ↦ none | some t₁ ↦ apply_changes changes t₁ ] ≡ some t'
        → Applied (change ∷ changes) t t' id
    go ih none e h' = cc
    go ih (some t₁) e h' = record {
      jobs =
          (ih t₁ h').jobs
          ∙ ap (job_after changes id) (find_job-apply_change change t t₁ id e)
          ∙ sym (job_after-cons change changes id (find_job id t.jobs));
      results =
          (ih t₁ h').results
          ∙ ap (result_after changes id) (find_result-apply_change change t t₁ id e)
          ∙ sym (result_after-cons change changes id (find_result id t.results));
    }

-- What `committed` says of the outcome of a commit.
commit-Applied :
    (changes : List Change) (t : Tables) (id : Uuid) (o : Option Tables)
    → apply_changes changes t ≡ o
    → (committed t o).0 ≡ ok tt
    → Applied changes t (committed t o).1 id
commit-Applied changes t id none e h = cc
commit-Applied changes t id (some t') e h = apply_changes-Applied changes t t' id e

commit-refused :
    (t : Tables) (o : Option Tables) (e : Exn)
    → (committed t o).0 ≡ raised e
    → (committed t o).1 ≡ t
commit-refused t none e h = refl
commit-refused t (some t') e h = cc

commit-duplicate :
    (job row : ProcessingJob) (t : Tables)
    → find_job job.id t.jobs ≡ some row
    → (committed t (apply_changes (insert_job job ∷ []) t)).1 ≡ t
unfolding apply_changes apply_change
commit-duplicate job row t h = rw (h, apply_changes, apply_change, committed) refl

-- The laws of a database hold of the tables, in any platform that has them.
pub record TableLaws : Type 0 where
  pub job_key :
      (t : Tables) (id : Uuid) (row : ProcessingJob) → find_job id t.jobs ≡ some row → row.id ≡ id
  pub applied :
      (changes : List Change) (t : Tables) (id : Uuid)
      → (committed t (apply_changes changes t)).0 ≡ ok tt
      → Applied changes t (committed t (apply_changes changes t)).1 id
  pub refused :
      (changes : List Change) (t : Tables) (e : Exn)
      → (committed t (apply_changes changes t)).0 ≡ raised e
      → (committed t (apply_changes changes t)).1 ≡ t
  pub duplicate :
      (job row : ProcessingJob) (t : Tables)
      → find_job job.id t.jobs ≡ some row
      → (committed t (apply_changes (insert_job job ∷ []) t)).1 ≡ t

pub table_laws : TableLaws
table_laws = record {
  job_key = λ t id row. find_job-key id t.jobs row;
  applied = λ changes t id. commit-Applied changes t id (apply_changes changes t) refl;
  refused = λ changes t. commit-refused t (apply_changes changes t);
  duplicate = commit-duplicate;
}
