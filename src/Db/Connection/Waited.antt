-- ===== src/Db/Connection/Waited.antt =====
-- When `wait_for_database` of app/db/session.py returns, and when it gives up.
use async_ai_document_pipeli.Prelude.{ℕ, zero, suc, ◌<◌, ◌≡◌, refl, ◌∙◌, true, arith}
use async_ai_document_pipeli.Core.Errors.{Exn, isinstance_any}
use async_ai_document_pipeli.Core.Exec.{ok, raised}
use async_ai_document_pipeli.Core.Settings.{Settings}
use async_ai_document_pipeli.Platform.{Platform}
use async_ai_document_pipeli.Platform.World.{World}
use async_ai_document_pipeli.Db.Connection.{
  connection_errors, unreachable, wait_loop, wait_for_database,
}

module _ (p : Platform) where
  -- The database after so many attempts.
  unfoldable pub attempted : ℕ → p.Db → p.Db
  attempted zero db = db
  attempted (suc n) db = attempted n (p.db.ping db).1

  -- So many attempts, each of which meets an error that is waited out.
  abbrev pub IsDown : ℕ → p.Db → Type 0
  IsDown zero db = Unit
  IsDown (suc n) db =
      ((e : Exn) × ((p.db.ping db).0 ≡ raised e) × (isinstance_any e connection_errors ≡ true))
      × IsDown n (p.db.ping db).1

  module _ (settings : Settings p.Float) where
    skip :
        (left : ℕ) (w : World p) (e : Exn)
        → (p.db.ping w.db).0 ≡ raised e
        → isinstance_any e connection_errors ≡ true
        → wait_loop p settings (suc left) w
          ≡ wait_loop p settings left (record w { db = (p.db.ping w.db).1 })
    unfolding wait_loop
    skip left w e failed waited = rw (wait_loop, failed, waited) refl

    wait_loop-answers :
        (n left : ℕ) (w : World p)
        → n < left
        → IsDown n w.db
        → (p.db.ping (attempted n w.db)).0 ≡ ok tt
        → wait_loop p settings left w ≡ (ok tt, record w { db = attempted (suc n) w.db })
    unfolding wait_loop attempted
    wait_loop-answers n zero w h down up = absurd (omega (arith, h))
    wait_loop-answers zero (suc left) w h down up = rw (wait_loop, up) refl
    wait_loop-answers (suc n) (suc left) w h ((e, failed, waited), down) up =
        skip left w e failed waited
        ∙ wait_loop-answers n left (record w { db = (p.db.ping w.db).1 }) (omega (arith, h)) down up

    wait_loop-gives_up :
        (left : ℕ) (w : World p)
        → IsDown left w.db
        → wait_loop p settings left w
          ≡ (raised (unreachable p settings), record w { db = attempted left w.db })
    unfolding wait_loop attempted
    wait_loop-gives_up zero w down = refl
    wait_loop-gives_up (suc left) w ((e, failed, waited), down) =
        skip left w e failed waited
        ∙ wait_loop-gives_up left (record w { db = (p.db.ping w.db).1 }) down

    -- If the database first answers after some failed attempts that the budget exceeds,
    -- `wait_for_database` returns after the attempt that it answers, and has changed nothing
    -- else.
    pub wait_for_database-answers :
        (n : ℕ) (w : World p)
        → n < settings.db_connect_max_attempts
        → IsDown n w.db
        → (p.db.ping (attempted n w.db)).0 ≡ ok tt
        → wait_for_database p settings w ≡ (ok tt, record w { db = attempted (suc n) w.db })
    unfolding wait_for_database
    wait_for_database-answers n w h down up =
        wait_loop-answers n settings.db_connect_max_attempts w h down up

    -- If every attempt of the budget fails, it raises `DependencyUnavailableError` after the last.
    pub wait_for_database-gives_up :
        (w : World p)
        → IsDown settings.db_connect_max_attempts w.db
        → wait_for_database p settings w ≡ (
          raised (unreachable p settings),
          record w { db = attempted settings.db_connect_max_attempts w.db },
        )
    unfolding wait_for_database
    wait_for_database-gives_up w down = wait_loop-gives_up settings.db_connect_max_attempts w down
