-- ===== src/Services/Queue/Producing.antt =====
-- The producing half of app/services/queue.py, and the lifecycle of the connection.
use async_ai_document_pipeli.Prelude.{
  ℕ, suc, zero, true, false, none, some, List, [], ◌∷◌, String, if◌then◌else◌, ◌⊕◌, show_int,
}
use async_ai_document_pipeli.Core.Errors.{
  Exn, foreign, dependency_unavailable, app_exn, isinstance_any,
}
use async_ai_document_pipeli.Core.Exec.{
  ok, raised, Exec, pure, raise, gets, ◌>>=◌, ◌>>◌, try_except,
}
use async_ai_document_pipeli.Core.Settings.{Settings, redis_retry_zset}
use async_ai_document_pipeli.Schemas.Events.{Event, payload_field}
use async_ai_document_pipeli.Platform.{Platform, Codec, RedisClient, StreamFields}
use async_ai_document_pipeli.Platform.World.{World, on_redis, utcnow}
use async_ai_document_pipeli.Services.Queue.{command, as_queue_error}

-- `to_stream_fields` of app/schemas/events.py
unfoldable pub to_stream_fields : Codec → Event → StreamFields
to_stream_fields codec event = (payload_field, codec.dump_json event) ∷ []

-- The undecodable payloads of a sweep are dropped.
unfoldable pub decode_retries : Codec → List String → List Event
decode_retries codec [] = []
decode_retries codec (payload ∷ payloads) = elim (codec.validate_json payload) [
  | none ↦ decode_retries codec payloads
  | some event ↦ event ∷ decode_retries codec payloads
]

-- `'NoneType' object is not callable`: the script is registered by `connect`.
abbrev pub type_error : Exn
type_error = foreign (record {
  type_name = "TypeError";
  classes = "TypeError" ∷ "Exception" ∷ [];
  text = "'NoneType' object is not callable";
})

-- `_POP_DUE_RETRIES`: the two commands are one step of the server.
unfoldable pub pop_due_script :
    {R F : Type 0} → RedisClient R F → String → F → ℕ → R → List String × R
pop_due_script redis key now limit r = elim (redis.zrangebyscore key now limit r) [
  | [] ↦ ([], r)
  | payload ∷ payloads ↦ (payload ∷ payloads, redis.zrem key (payload ∷ payloads) r)
]

abbrev pub connect_errors : List String
connect_errors = "redis.exceptions.ConnectionError" ∷ "OSError" ∷ []

module _ (p : Platform) where
  unfoldable pub publish : Settings p.Float → Event → Exec (World p) String
  publish settings event =
      command "Failed to publish the processing event."
        (p.redis.xadd settings.redis_stream_name (to_stream_fields p.codec event))

  unfoldable pub schedule_retry : Settings p.Float → Event → p.Float → Exec (World p) (Unit {0})
  schedule_retry settings event delay_seconds = do
    now ← utcnow
    let due_at = p.float.add (p.env.timestamp now) delay_seconds
    command "Failed to schedule the retry."
        (p.redis.zadd (redis_retry_zset settings) (p.codec.dump_json event) due_at)

  unfoldable pub pop_due_retries : Settings p.Float → ℕ → Exec (World p) (List Event)
  pop_due_retries settings limit = do
    registered ← gets (λ w. w.registered)
    now ← utcnow
    payloads ←
        (if registered
          then try_except
              (on_redis (
                p.redis.eval_script
                  (pop_due_script p.redis (redis_retry_zset settings) (p.env.timestamp now) limit)))
              (λ e. raise (as_queue_error "Failed to read the retry schedule." e))
          else raise type_error)
    pure (decode_retries p.codec payloads)

  -- The `for attempt in range(1, …)` of `connect`, by the attempts that are left.
  unfoldable pub connect_loop : Settings p.Float → ℕ → Exec (World p) (Unit {0})
  connect_loop settings zero =
      on_redis p.redis.aclose
      >> raise (
          app_exn dependency_unavailable (
            "Redis unreachable after "
            ⊕ show_int settings.redis_connect_max_attempts
            ⊕ " attempts"))
  connect_loop settings (suc left) = λ w.
      let (r, redis') = p.redis.ping w.redis in
      elim r [
        | ok _ ↦ pure tt (record w { connected = true; registered = true; redis = redis' })
        | raised e ↦ elim (isinstance_any e connect_errors) [
          | true ↦ connect_loop settings left (record w { redis = redis' })
          | false ↦ raise e (record w { redis = redis' })
        ]
      ]

  unfoldable pub connect : Settings p.Float → Exec (World p) (Unit {0})
  connect settings = connect_loop settings settings.redis_connect_max_attempts
