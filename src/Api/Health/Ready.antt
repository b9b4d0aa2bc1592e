-- ===== src/Api/Health/Ready.antt =====
-- When the readiness probe of app/api/routes/health.py says that the API is ready.
use async_ai_document_pipeli.Prelude.{◌≡◌, refl, ◌↔◌, ◌⊎◌, Bool, true, false, ◌&&◌, arith}
use async_ai_document_pipeli.Core.Errors.{Exn, isinstance_any, is_queue_error}
use async_ai_document_pipeli.Core.Exec.{Outcome, ok, raised, continue}
use async_ai_document_pipeli.Db.Connection.{connection_errors, check_database, not_answering}
use async_ai_document_pipeli.Platform.{Platform}
use async_ai_document_pipeli.Platform.World.{World}
use async_ai_document_pipeli.Services.Queue.{redis_errors, client}
use async_ai_document_pipeli.Services.Queue.Group.{health, unhealthy}
use async_ai_document_pipeli.Api.Health.{Readiness, readiness, ready}

-- Each client library raises its own errors.
pub record DriverErrors (p : Platform) : Type 0 where
  pub of_database :
      (db : p.Db) (e : Exn)
      → (p.db.ping db).0 ≡ raised e
      → isinstance_any e connection_errors ≡ true
  pub of_redis :
      (r : p.Redis) (e : Exn) → (p.redis.ping r).0 ≡ raised e → isinstance_any e redis_errors ≡ true

-- An answer rather than an error.
abbrev answers : Outcome (Unit {0}) → Bool
answers (ok _) = true
answers (raised e) = false

module _ (p : Platform) (errors : DriverErrors p) where
  check-answers :
      (r : Outcome (Unit {0})) (w : World p)
      → (p.db.ping w.db).0 ≡ r
      → check_database p w ≡ (ok (answers r), record w { db = (p.db.ping w.db).1 })
  unfolding check_database not_answering
  check-answers (ok tt) w h = ground arith
  check-answers (raised e) w h = ground (arith, errors.of_database w.db e h)

  -- Redis after the check: it is asked only by a process that is connected.
  abbrev asked : Bool → p.Redis → p.Redis
  asked true r = (p.redis.ping r).1
  asked false r = r

  health-answers :
      (connected : Bool) (r : Outcome (Unit {0})) (w : World p)
      → w.connected ≡ connected
      → (p.redis.ping w.redis).0 ≡ r
      → health p w ≡ (ok (connected && answers r), record w { redis = asked connected w.redis })
  unfolding health unhealthy client is_queue_error
  health-answers true (ok tt) w c h = ground arith
  health-answers true (raised e) w c h = ground (arith, errors.of_redis w.redis e h)
  health-answers false r w c h = ground arith

  answer_of : World p → Readiness
  answer_of w =
      readiness (answers (p.db.ping w.db).0) (w.connected && answers (p.redis.ping w.redis).0)

  ready-answer : (w : World p) → (ready p w).0 ≡ ok (answer_of w)
  unfolding ready answer_of
  ready-answer w =
      let v : World p = record w { db = (p.db.ping w.db).1 } in
      rw
        (
          check-answers (p.db.ping w.db).0 w refl,
          continue,
          health-answers w.connected (p.redis.ping w.redis).0 v refl refl,
        )
        refl

  module _ (w : World p) where
    -- Both dependencies answer.
    abbrev pub AllAnswer : Type 0
    AllAnswer =
        ((p.db.ping w.db).0 ≡ ok tt) × (w.connected ≡ true) × ((p.redis.ping w.redis).0 ≡ ok tt)

    decided :
        (d r : Outcome (Unit {0})) (c : Bool)
        → (p.db.ping w.db).0 ≡ d
        → (p.redis.ping w.redis).0 ≡ r
        → w.connected ≡ c
        → (((answer_of w).status_code ≡ 200) ↔ AllAnswer)
          × (((answer_of w).status_code ≡ 200) ⊎ ((answer_of w).status_code ≡ 503))
    unfolding answer_of readiness
    decided d r c dh rh ch = ground arith

    -- If each client library raises its own errors, the readiness probe never raises, and its
    -- status is 200 exactly when the database answers, this process is connected to Redis, and
    -- Redis answers; otherwise it is 503.
    pub ready-exact :
        (answer : Readiness) × ((ready p w).0 ≡ ok answer)
        × ((answer.status_code ≡ 200) ↔ AllAnswer)
        × ((answer.status_code ≡ 200) ⊎ (answer.status_code ≡ 503))
    ready-exact =
        let (exact, either) =
          decided (p.db.ping w.db).0 (p.redis.ping w.redis).0 w.connected refl refl refl in
        (answer_of w, ready-answer w, exact, either)
