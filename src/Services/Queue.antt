-- ===== src/Services/Queue.antt =====
-- app/services/queue.py: the queue's state and its commands; `Queue/Producing` and `Queue/Consuming` hold the
-- operations.
pub mod Producing
pub mod Consuming
pub mod Decoding
pub mod Untouched
pub mod Group
use async_ai_document_pipeli.Prelude.{
  ℕ, suc, zero, ◌+◌, Bool, true, false, Option, none, some, List, [], ◌∷◌, String, str_eq, ◌==◌,
  if◌then◌else◌, ◌⊕◌, show_int,
}
use async_ai_document_pipeli.Core.Errors.{
  Exn, foreign, queue_error, malformed_event, dependency_unavailable, app_exn, isinstance,
  isinstance_any,
}
use async_ai_document_pipeli.Core.Exec.{
  Outcome, ok, raised, Exec, pure, raise, gets, ◌>>=◌, ◌>>◌, try_except,
}
use async_ai_document_pipeli.Core.Settings.{Settings}
use async_ai_document_pipeli.Schemas.Events.{Event, event_version_supported, payload_field}
use async_ai_document_pipeli.Platform.{Platform, Codec, PendingEntry, StreamFields}
use async_ai_document_pipeli.Platform.World.{World, on_redis}

-- A stream entry handed to this consumer, with its redelivery history.
pub record DeliveredEvent : Type 0 where
  pub message_id : String
  pub event : Event
  pub delivery_count : ℕ

-- A point-in-time view of the backlog.
pub record QueueDepth : Type 0 where
  pub stream_length : ℕ
  pub pending : ℕ
  pub scheduled_retries : ℕ

abbrev pub redis_errors : List String
redis_errors = "redis.exceptions.RedisError" ∷ "OSError" ∷ []

-- `raise QueueError(message)` in place of an error of the connection; others pass.
unfoldable pub as_queue_error : String → Exn → Exn
unfolding isinstance_any
as_queue_error message e = if isinstance_any e redis_errors then app_exn queue_error message else e

-- `fields.get(key)`
unfoldable pub field_value : String → StreamFields → Option String
field_value key [] = none
field_value key ((k, v) ∷ fields) = if str_eq k key then some v else field_value key fields

-- `counts[key] = n`
unfoldable pub put_count : String → ℕ → List (String × ℕ) → List (String × ℕ)
put_count key n [] = (key, n) ∷ []
put_count key n ((k, m) ∷ counts) =
    if str_eq k key then (k, n) ∷ counts else (k, m) ∷ put_count key n counts

-- `counts.get(key, 1)`
unfoldable pub count_or_one : String → List (String × ℕ) → ℕ
count_or_one key [] = 1
count_or_one key ((k, n) ∷ counts) = if str_eq k key then n else count_or_one key counts

-- The dict comprehension of `claim_stale`: XPENDING reports deliveries so far, and the XCLAIM adds one.
unfoldable pub delivery_counts : List (String × ℕ) → List PendingEntry → List (String × ℕ)
unfolding put_count
delivery_counts counts [] = counts
delivery_counts counts (entry ∷ entries) =
    delivery_counts (put_count entry.message_id (entry.times_delivered + 1) counts) entries

-- `_decode_one`
unfoldable pub decode_one : Codec → StreamFields → Outcome Event
unfolding field_value
decode_one codec fields = elim (field_value payload_field fields) [
  | none ↦ raised (app_exn malformed_event "Stream entry has no payload field.")
  | some payload ↦ elim (codec.validate_json payload) [
    | none ↦ raised (app_exn malformed_event "Stream entry failed schema validation.")
    | some event ↦
        if event.event_version == event_version_supported
        then ok event
        else raised (
            app_exn malformed_event
              ("Unsupported event version " ⊕ show_int event.event_version ⊕ "."))
  ]
]

module _ {p : Platform} where
  -- The `client` property: a connection that `connect` has opened.
  unfoldable pub client : Exec (World p) (Unit {0})
  client w = elim w.connected [
    | true ↦ pure tt w
    | false ↦ raise (app_exn queue_error "The Redis queue is not connected.") w
  ]

  -- A command in a `try` block whose `except (RedisError, OSError)` raises a `QueueError`.
  unfoldable pub command {ℓ} :
      {A : Type ℓ} → String → (p.Redis → Outcome A × p.Redis) → Exec (World p) A
  unfolding client as_queue_error
  command message send =
      try_except (client >> on_redis send) (λ e. raise (as_queue_error message e))

  unfoldable pub close : Exec (World p) (Unit {0})
  close w = elim w.connected [
    | true ↦ (on_redis p.redis.aclose >> (λ v. pure tt (record v { connected = false }))) w
    | false ↦ pure tt w
  ]
