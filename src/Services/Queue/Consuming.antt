-- ===== src/Services/Queue/Consuming.antt =====
-- The consuming half of app/services/queue.py.
use async_ai_document_pipeli.Prelude.{ℕ, none, some, List, [], ◌∷◌, ◌++◌, map, String}
use async_ai_document_pipeli.Core.Exec.{Outcome, ok, raised, Exec, pure, ◌>>=◌, ◌>>◌}
use async_ai_document_pipeli.Core.Settings.{Settings, redis_retry_zset}
use async_ai_document_pipeli.Schemas.Events.{Event}
use async_ai_document_pipeli.Platform.{Platform, StreamFields, PendingEntry}
use async_ai_document_pipeli.Platform.World.{World}
use async_ai_document_pipeli.Services.Queue.{
  DeliveredEvent, QueueDepth, command, decode_one, delivery_counts, count_or_one,
}

abbrev pub Messages : Type 0
Messages = List (String × StreamFields)

module _ (p : Platform) where
  unfoldable pub ack : Settings p.Float → String → Exec (World p) (Unit {0})
  ack settings message_id =
      command "Failed to acknowledge the message."
        (p.redis.xack settings.redis_stream_name settings.redis_consumer_group message_id)

  -- One round of `_decode_messages`, before the rest of the loop: an entry that cannot be decoded
  -- is acknowledged and dropped. `_decode_one` raises nothing but `MalformedEventError`.
  unfoldable pub deliver_or_drop :
      Settings p.Float
      → String
      → ℕ
      → Outcome Event
      → Exec (World p) (List DeliveredEvent)
      → Exec (World p) (List DeliveredEvent)
  deliver_or_drop settings message_id count (raised _) rest = ack settings message_id >> rest
  deliver_or_drop settings message_id count (ok event) rest = do
    delivered ← rest
    pure (record { message_id = message_id; event = event; delivery_count = count } ∷ delivered)

  unfoldable pub decode_messages :
      Settings p.Float → Messages → List (String × ℕ) → Exec (World p) (List DeliveredEvent)
  decode_messages settings [] counts = pure []
  decode_messages settings ((message_id, fields) ∷ messages) counts =
      deliver_or_drop settings message_id (count_or_one message_id counts)
        (decode_one p.codec fields) (decode_messages settings messages counts)

  -- `_decode_entries`
  unfoldable pub decode_entries :
      Settings p.Float → List (String × Messages) → Exec (World p) (List DeliveredEvent)
  decode_entries settings [] = pure []
  decode_entries settings ((_, messages) ∷ entries) = do
    delivered ← decode_messages settings messages []
    rest ← decode_entries settings entries
    pure (delivered ++ rest)

  unfoldable pub read : Settings p.Float → String → Exec (World p) (List DeliveredEvent)
  read settings consumer_name = do
    response ← command "Failed to read from the stream." (
        p.redis.xreadgroup settings.redis_consumer_group consumer_name settings.redis_stream_name
          settings.redis_read_count settings.redis_block_ms)
    decode_entries settings response

  -- `claim_stale` after XPENDING: nothing is claimed where nothing is pending.
  unfoldable pub claim_entries :
      Settings p.Float → String → List PendingEntry → Exec (World p) (List DeliveredEvent)
  claim_entries settings consumer_name [] = pure []
  claim_entries settings consumer_name (entry ∷ entries) = do
    let counts = delivery_counts [] (entry ∷ entries)
    claimed ← command "Failed to claim pending messages." (
        p.redis.xclaim settings.redis_stream_name settings.redis_consumer_group consumer_name
          settings.pending_min_idle_ms (map (λ c. c.0) counts))
    decode_messages settings claimed counts

  unfoldable pub claim_stale : Settings p.Float → String → Exec (World p) (List DeliveredEvent)
  claim_stale settings consumer_name = do
    pending ← command "Failed to claim pending messages." (
        p.redis.xpending_range settings.redis_stream_name settings.redis_consumer_group
          settings.redis_read_count settings.pending_min_idle_ms)
    claim_entries settings consumer_name pending

  unfoldable pub depth : Settings p.Float → Exec (World p) QueueDepth
  depth settings = do
    stream_length ← command "Failed to read queue depth." (p.redis.xlen settings.redis_stream_name)
    pending ←
        command "Failed to read queue depth."
          (p.redis.xpending settings.redis_stream_name settings.redis_consumer_group)
    scheduled ← command "Failed to read queue depth." (p.redis.zcard (redis_retry_zset settings))
    pure (record {
      stream_length = stream_length;
      pending = elim pending [ none ↦ 0 | some n ↦ n ];
      scheduled_retries = scheduled;
    })
