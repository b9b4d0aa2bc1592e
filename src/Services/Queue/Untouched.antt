-- ===== src/Services/Queue/Untouched.antt =====
-- The commands of app/services/queue.py reach Redis only: the committed rows stay as they are.
use async_ai_document_pipeli.Prelude.{◌≡◌, refl, List, [], ◌∷◌, map, String, ℕ, arith}
use async_ai_document_pipeli.Core.Exec.{Outcome, ok, raised, Exec}
use async_ai_document_pipeli.Core.Settings.{Settings}
use async_ai_document_pipeli.Platform.{Platform, PendingEntry}
use async_ai_document_pipeli.Platform.World.{World, utcnow}
use async_ai_document_pipeli.Schemas.Events.{Event}
use async_ai_document_pipeli.Services.JobService.Advance.{Advances, Advances-eq, >>=-Advances}
use async_ai_document_pipeli.Services.Queue.{
  DeliveredEvent, command, delivery_counts, client, decode_one, count_or_one,
}
use async_ai_document_pipeli.Services.Queue.Consuming.{
  Messages, ack, deliver_or_drop, decode_messages, decode_entries, read, claim_entries, claim_stale,
}
use async_ai_document_pipeli.Services.Queue.Producing.{publish, pop_due_retries}

module _ {p : Platform} where
  pub command-db :
      {A : Type 0} (message : String) (send : p.Redis → Outcome A × p.Redis) (w : World p)
      → (command message send w).1.db ≡ w.db
  unfolding command client
  command-db message send w = ground arith

  pub command-Advances :
      {A : Type 0} (message : String) (send : p.Redis → Outcome A × p.Redis) (w : World p)
      → Advances p w.db (command message send w).1.db
  command-Advances message send w = Advances-eq p (command-db message send w)

module _ (p : Platform) (settings : Settings p.Float) where
  pub ack-Advances : (id : String) (w : World p) → Advances p w.db (ack p settings id w).1.db
  unfolding ack
  ack-Advances id w = command-Advances _ _ w

  deliver_or_drop-Advances :
      (id : String) (count : ℕ) (r : Outcome Event) (rest : Exec (World p) (List DeliveredEvent))
      (w : World p)
      → ((v : World p) → Advances p v.db (rest v).1.db)
      → Advances p w.db (deliver_or_drop p settings id count r rest w).1.db
  unfolding deliver_or_drop
  deliver_or_drop-Advances id count (raised e) rest w h =
      >>=-Advances (λ _. rest) w (ack p settings id) (ack-Advances id w)
        (λ a g. h (ack p settings id w).1)
  deliver_or_drop-Advances id count (ok event) rest w h =
      >>=-Advances _ w rest (h w) (λ a g. Advances-eq p refl)

  pub decode_messages-Advances :
      (messages : Messages) (counts : List (String × ℕ)) (w : World p)
      → Advances p w.db (decode_messages p settings messages counts w).1.db
  unfolding decode_messages
  decode_messages-Advances [] counts w = Advances-eq p refl
  decode_messages-Advances ((id, fields) ∷ messages) counts w =
      deliver_or_drop-Advances id (count_or_one id counts) (decode_one p.codec fields)
        (decode_messages p settings messages counts) w
        (λ v. decode_messages-Advances messages counts v)

  decode_entries-Advances :
      (entries : List (String × Messages)) (w : World p)
      → Advances p w.db (decode_entries p settings entries w).1.db
  unfolding decode_entries
  decode_entries-Advances [] w = Advances-eq p refl
  decode_entries-Advances ((_, messages) ∷ entries) w =
      >>=-Advances _ w (decode_messages p settings messages [])
        (decode_messages-Advances messages [] w)
        (λ delivered h.
          let v = (decode_messages p settings messages [] w).1 in
          >>=-Advances _ v (decode_entries p settings entries) (decode_entries-Advances entries v)
            (λ rest g. Advances-eq p refl))

  pub read-Advances :
      (consumer : String) (w : World p) → Advances p w.db (read p settings consumer w).1.db
  unfolding read
  read-Advances consumer w =
      >>=-Advances (decode_entries p settings) w
        (command "Failed to read from the stream." (
          p.redis.xreadgroup settings.redis_consumer_group consumer settings.redis_stream_name
            settings.redis_read_count settings.redis_block_ms))
        (command-Advances _ _ w) (λ response h. decode_entries-Advances response _)

  claim_entries-Advances :
      (consumer : String) (pending : List PendingEntry) (w : World p)
      → Advances p w.db (claim_entries p settings consumer pending w).1.db
  unfolding claim_entries
  claim_entries-Advances consumer [] w = Advances-eq p refl
  claim_entries-Advances consumer (entry ∷ entries) w =
      let counts = delivery_counts [] (entry ∷ entries) in
      >>=-Advances (λ claimed. decode_messages p settings claimed counts) w
        (command "Failed to claim pending messages." (
          p.redis.xclaim settings.redis_stream_name settings.redis_consumer_group consumer
            settings.pending_min_idle_ms (map (λ c. c.0) counts)))
        (command-Advances _ _ w) (λ claimed h. decode_messages-Advances claimed counts _)

  pub claim_stale-Advances :
      (consumer : String) (w : World p) → Advances p w.db (claim_stale p settings consumer w).1.db
  unfolding claim_stale
  claim_stale-Advances consumer w =
      >>=-Advances (claim_entries p settings consumer) w
        (command "Failed to claim pending messages." (
          p.redis.xpending_range settings.redis_stream_name settings.redis_consumer_group
            settings.redis_read_count settings.pending_min_idle_ms))
        (command-Advances _ _ w) (λ pending h. claim_entries-Advances consumer pending _)

  pub publish-Advances :
      (event : Event) (w : World p) → Advances p w.db (publish p settings event w).1.db
  unfolding publish
  publish-Advances event w = command-Advances _ _ w

  pop_due_retries-db : (limit : ℕ) (w : World p) → (pop_due_retries p settings limit w).1.db ≡ w.db
  unfolding pop_due_retries utcnow
  pop_due_retries-db limit w = ground arith

  pub pop_due_retries-Advances :
      (limit : ℕ) (w : World p) → Advances p w.db (pop_due_retries p settings limit w).1.db
  pop_due_retries-Advances limit w = Advances-eq p (pop_due_retries-db limit w)
