-- ===== src/Api/Health.antt =====
-- The probes of app/api/routes/health.py.
pub mod Ready
use async_ai_document_pipeli.Prelude.{ℕ, Bool, true, false, ◌&&◌, String, if◌then◌else◌}
use async_ai_document_pipeli.Core.Exec.{Exec, pure, ◌>>=◌}
use async_ai_document_pipeli.Db.Connection.{check_database}
use async_ai_document_pipeli.Platform.{Platform}
use async_ai_document_pipeli.Platform.World.{World}
use async_ai_document_pipeli.Services.Queue.Group.{health}

-- The body of the answer, and its status code.
pub record Readiness : Type 0 where
  pub status_code : ℕ
  pub status : String
  pub database : Bool
  pub redis : Bool

-- The answer to the two checks.
unfoldable pub readiness : Bool → Bool → Readiness
readiness database redis =
    let all_ready = database && redis in
    record {
      status_code = if all_ready then 200 else 503;
      status = if all_ready then "ready" else "not_ready";
      database = database;
      redis = redis;
    }

unfoldable pub ready : (p : Platform) → Exec (World p) Readiness
unfolding check_database health readiness
ready p = do database ← check_database p; redis ← health p; pure (readiness database redis)
