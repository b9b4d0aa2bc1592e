-- ===== src/Services/Queue/Group.antt =====
-- The consumer group and the health check of app/services/queue.py.
use async_ai_document_pipeli.Prelude.{Bool, true, false, ◌||◌, String, contains}
use async_ai_document_pipeli.Core.Errors.{
  Exn, app, foreign, queue_error, app_exn, isinstance, isinstance_any, is_queue_error,
}
use async_ai_document_pipeli.Core.Exec.{Exec, pure, raise, ◌>>◌, try_except}
use async_ai_document_pipeli.Core.Settings.{Settings}
use async_ai_document_pipeli.Platform.{Platform}
use async_ai_document_pipeli.Platform.World.{World, on_redis}
use async_ai_document_pipeli.Services.Queue.{client, redis_errors}

abbrev pub group_exists : String
group_exists = "BUSYGROUP"

-- `_GROUP_EXISTS in str(error)`, of an error of Redis.
unfoldable pub says_group_exists : Exn → Bool
says_group_exists (app e) = contains group_exists e.message
says_group_exists (foreign e) = contains group_exists e.text

module _ (p : Platform) where
  -- `except ResponseError`
  unfoldable pub group_not_created : Exn → Exec (World p) (Unit {0})
  group_not_created e = elim (isinstance e "redis.exceptions.ResponseError") [
    | false ↦ raise e
    | true ↦ elim (says_group_exists e) [
      | true ↦ pure tt
      | false ↦ raise (app_exn queue_error "Failed to create the consumer group.")
    ]
  ]

  unfoldable pub ensure_group : Settings p.Float → Exec (World p) (Unit {0})
  ensure_group settings =
      try_except
        (client
          >> on_redis
              (p.redis.xgroup_create settings.redis_stream_name settings.redis_consumer_group))
        group_not_created

  -- The `except` of `health`.
  unfoldable pub unhealthy : Exn → Exec (World p) Bool
  unhealthy e = elim (isinstance_any e redis_errors || is_queue_error e) [
    | true ↦ pure false
    | false ↦ raise e
  ]

  unfoldable pub health : Exec (World p) Bool
  health = try_except (client >> on_redis p.redis.ping >> pure true) unhealthy
