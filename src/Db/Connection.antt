-- ===== src/Db/Connection.antt =====
-- `wait_for_database` and `check_database` of app/db/session.py. The engine and the factory of sessions are
-- SQLAlchemy's.
pub mod Waited
use async_ai_document_pipeli.Prelude.{
  ℕ, zero, suc, Bool, true, false, List, [], ◌∷◌, String, ◌⊕◌, show_int,
}
use async_ai_document_pipeli.Core.Errors.{Exn, app_exn, dependency_unavailable, isinstance_any}
use async_ai_document_pipeli.Core.Exec.{ok, raised, Exec, pure, raise, ◌>>=◌, ◌>>◌, try_except}
use async_ai_document_pipeli.Core.Settings.{Settings}
use async_ai_document_pipeli.Platform.{Platform}
use async_ai_document_pipeli.Platform.World.{World, on_db}

-- `(SQLAlchemyError, OSError)`
abbrev pub connection_errors : List String
connection_errors = "sqlalchemy.exc.SQLAlchemyError" ∷ "OSError" ∷ []

module _ (p : Platform) where
  abbrev pub unreachable : Settings p.Float → Exn
  unreachable settings =
      app_exn dependency_unavailable (
        "PostgreSQL unreachable after " ⊕ (show_int settings.db_connect_max_attempts ⊕ " attempts"))

  -- The loop, by the attempts that are left; the pauses change nothing.
  unfoldable pub wait_loop : Settings p.Float → ℕ → Exec (World p) (Unit {0})
  wait_loop settings zero w = raise (unreachable settings) w
  wait_loop settings (suc left) w =
      let (r, db') = p.db.ping w.db in
      elim r [
        | ok _ ↦ pure tt (record w { db = db' })
        | raised e ↦ elim (isinstance_any e connection_errors) [
          | true ↦ wait_loop settings left (record w { db = db' })
          | false ↦ raise e (record w { db = db' })
        ]
      ]

  unfoldable pub wait_for_database : Settings p.Float → Exec (World p) (Unit {0})
  unfolding wait_loop
  wait_for_database settings = wait_loop settings settings.db_connect_max_attempts

  -- The `except` of `check_database`.
  unfoldable pub not_answering : Exn → Exec (World p) Bool
  not_answering e = elim (isinstance_any e connection_errors) [
    | true ↦ pure false
    | false ↦ raise e
  ]

  unfoldable pub check_database : Exec (World p) Bool
  unfolding not_answering
  check_database = try_except (on_db p.db.ping >> pure true) not_answering
