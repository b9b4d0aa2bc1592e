-- ===== src/Services/Queue/Decoding.antt =====
-- What the decoding of app/services/queue.py delivers, and what it acknowledges itself.
use async_ai_document_pipeli.Prelude.{ℕ, ◌≡◌, refl, sym, ap, ◌∙◌, List, [], ◌∷◌, String, arith}
use async_ai_document_pipeli.Core.Exec.{Outcome, Exec, ok, raised, pure}
use async_ai_document_pipeli.Core.Exec.Inversion.{>>=-ok, ok-injective}
use async_ai_document_pipeli.Core.Settings.{Settings}
use async_ai_document_pipeli.Platform.{Platform, Codec, StreamFields}
use async_ai_document_pipeli.Platform.World.{World}
use async_ai_document_pipeli.Services.Queue.{
  DeliveredEvent, decode_one, count_or_one, command, client,
}
use async_ai_document_pipeli.Services.Queue.Consuming.{
  Messages, decode_messages, deliver_or_drop, ack,
}
use async_ai_document_pipeli.Services.Queue.Producing.{type_error}
use async_ai_document_pipeli.Schemas.Events.{Event}

-- A decoded event in front of the deliveries that follow it.
abbrev pub delivered_first : String → ℕ → Outcome Event → List DeliveredEvent → List DeliveredEvent
delivered_first id count (raised _) rest = rest
delivered_first id count (ok event) rest =
    record { message_id = id; event = event; delivery_count = count } ∷ rest

-- The entries that decode, in order, each with its count.
abbrev pub decodable : Codec → List (String × ℕ) → Messages → List DeliveredEvent
decodable codec counts [] = []
decodable codec counts ((id, fields) ∷ messages) =
    delivered_first id (count_or_one id counts) (decode_one codec fields)
      (decodable codec counts messages)

module _ (p : Platform) (settings : Settings p.Float) where
  abbrev pub acked_if_raised : String → Outcome Event → p.Redis → p.Redis
  acked_if_raised id (ok event) redis = redis
  acked_if_raised id (raised _) redis =
      (p.redis.xack settings.redis_stream_name settings.redis_consumer_group id redis).1

  -- The connection after each entry that does not decode is acknowledged, in order.
  abbrev pub poison_acked : Messages → p.Redis → p.Redis
  poison_acked [] redis = redis
  poison_acked ((id, fields) ∷ messages) redis =
      poison_acked messages (acked_if_raised id (decode_one p.codec fields) redis)

  ack-ok :
      (id : String) (w : World p)
      → (ack p settings id w).0 ≡ ok tt
      → ((ack p settings id w).1.redis ≡ acked_if_raised id (raised type_error) w.redis)
        × ((ack p settings id w).1.db ≡ w.db)
  unfolding ack command client
  ack-ok id w h = ground arith

  -- What a loop over the messages has done when it returned.
  abbrev Decoded : (Messages) → List (String × ℕ) → World p → List DeliveredEvent → World p → Type 0
  Decoded messages counts w delivered w' =
      (delivered ≡ decodable p.codec counts messages)
      × (w'.redis ≡ poison_acked messages w.redis)
      × (w'.db ≡ w.db)

  step-Decoded :
      (id : String) (fields : StreamFields) (messages : Messages) (counts : List (String × ℕ))
      (r : Outcome Event) (rest : Exec (World p) (List DeliveredEvent)) (w : World p)
      (delivered : List DeliveredEvent)
      → decode_one p.codec fields ≡ r
      → ((v : World p) (ds : List DeliveredEvent)
          → (rest v).0 ≡ ok ds
          → Decoded messages counts v ds (rest v).1)
      → (deliver_or_drop p settings id (count_or_one id counts) r rest w).0 ≡ ok delivered
      → Decoded
          ((id, fields) ∷ messages)
          counts
          w
          delivered
          (deliver_or_drop p settings id (count_or_one id counts) r rest w).1
  unfolding deliver_or_drop
  step-Decoded id fields messages counts (ok event) rest w delivered e ih h =
      let first : DeliveredEvent = record {
        message_id = id;
        event = event;
        delivery_count = count_or_one id counts;
      } in
      let (ds, returned, same, after) = >>=-ok rest (λ ds. pure (first ∷ ds)) w h in
      let done = ih w ds returned in
      rw (after, e) (sym (ok-injective same) ∙ ap (◌∷◌ first) done.0, done.1, done.2)
  step-Decoded id fields messages counts (raised x) rest w delivered e ih h =
      let (_, acked, returned, after) = >>=-ok (ack p settings id) (λ _. rest) w h in
      let done = ih (ack p settings id w).1 delivered returned in
      let (redis, db) = ack-ok id w acked in
      rw (after, e) (done.0, done.1 ∙ ap (poison_acked messages) redis, done.2 ∙ db)

  -- If the decoding of a batch returns, it has delivered exactly the entries that decode, in
  -- order and each with its delivery count, Redis has seen exactly the acknowledgements of the
  -- others, in order, and the database is untouched.
  pub decode_messages-ok :
      (messages : Messages) (counts : List (String × ℕ)) (w : World p)
      (delivered : List DeliveredEvent)
      → (decode_messages p settings messages counts w).0 ≡ ok delivered
      → (delivered ≡ decodable p.codec counts messages)
        × ((decode_messages p settings messages counts w).1.redis ≡ poison_acked messages w.redis)
        × ((decode_messages p settings messages counts w).1.db ≡ w.db)
  unfolding decode_messages
  decode_messages-ok [] counts w delivered h = (sym (ok-injective h), refl, refl)
  decode_messages-ok ((id, fields) ∷ messages) counts w delivered h =
      step-Decoded id fields messages counts (decode_one p.codec fields)
        (decode_messages p settings messages counts) w delivered refl
        (λ v ds. decode_messages-ok messages counts v ds) h
