-- ===== src/Platform/World.antt =====
-- One process's view of the world, and the calls that reach it.
use async_ai_document_pipeli.Prelude.{ℕ, Bool, Option, List, [], ◌∷◌, ◌++◌}
use async_ai_document_pipeli.Core.Exec.{Outcome, ok, raised, Exec}
use async_ai_document_pipeli.Db.Models.{Uuid, Instant, ProcessingJob}
use async_ai_document_pipeli.Db.Session.{Change}
use async_ai_document_pipeli.Platform.{Platform}

pub record World (p : Platform) : Type 0 where
  pub db : p.Db
  -- what the open session has added or changed since its last commit or rollback
  pub session : List Change
  -- `RedisQueue._client is not None`
  pub connected : Bool
  -- `RedisQueue._pop_due_retries is not None`
  pub registered : Bool
  pub redis : p.Redis
  -- `StreamConsumer._processed`
  pub processed : ℕ
  pub storage : p.Storage
  pub llm : p.Llm
  pub env : p.Env

-- A commit that raises leaves what was pending in the session.
abbrev pub left_pending : List Change → Outcome (Unit {0}) → List Change
left_pending pending (ok _) = []
left_pending pending (raised _) = pending

module _ {p : Platform} where
  -- A call of one part of the platform changes that part.
  abbrev pub on_db {ℓ} : {A : Type ℓ} → (p.Db → Outcome A × p.Db) → Exec (World p) A
  on_db f w = let (r, db') = f w.db in (r, record w { db = db' })

  abbrev pub on_redis {ℓ} : {A : Type ℓ} → (p.Redis → Outcome A × p.Redis) → Exec (World p) A
  on_redis f w = let (r, redis') = f w.redis in (r, record w { redis = redis' })

  abbrev pub on_storage {ℓ} : {A : Type ℓ} → (p.Storage → Outcome A × p.Storage) → Exec (World p) A
  on_storage f w = let (r, storage') = f w.storage in (r, record w { storage = storage' })

  abbrev pub on_llm {ℓ} : {A : Type ℓ} → (p.Llm → Outcome A × p.Llm) → Exec (World p) A
  on_llm f w = let (r, llm') = f w.llm in (r, record w { llm = llm' })

  abbrev pub on_env {ℓ} : {A : Type ℓ} → (p.Env → A × p.Env) → Exec (World p) A
  on_env f w = let (a, env') = f w.env in (ok a, record w { env = env' })

  -- A value that a pure call of a library returns or raises.
  abbrev pub lift {ℓ} : {A : Type ℓ} → Outcome A → Exec (World p) A
  lift r w = (r, w)

  unfoldable pub utcnow : Exec (World p) Instant
  utcnow = on_env p.env.utcnow

  unfoldable pub uuid4 : Exec (World p) Uuid
  uuid4 = on_env p.env.uuid4

  -- `session.add`, and the assignments that the session tracks.
  unfoldable pub stage : Change → Exec (World p) (Unit {0})
  stage change w = (ok tt, record w { session = w.session ++ change ∷ [] })

  unfoldable pub rollback : Exec (World p) (Unit {0})
  rollback w = (ok tt, record w { session = [] })

  unfoldable pub commit : Exec (World p) (Unit {0})
  commit w =
      let (r, db') = p.db.commit w.session w.db in
      (r, record w { db = db'; session = left_pending w.session r })

  unfoldable pub select_job : Uuid → Exec (World p) (Option ProcessingJob)
  select_job id = on_db (p.db.select_job id)
