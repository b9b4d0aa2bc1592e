-- ===== src/Worker/Consumer.antt =====
-- app/worker/consumer.py: reads events, hands them to the processor and acknowledges them.
pub mod Acknowledged
use async_ai_document_pipeli.Prelude.{
  ℕ, zero, suc, ◌+◌, Bool, true, false, Option, none, some, List, [], ◌∷◌, String,
}
use async_ai_document_pipeli.Core.Errors.{Exn, is_queue_error}
use async_ai_document_pipeli.Core.Exec.{Outcome, ok, raised, Exec, pure, raise, ◌>>=◌, ◌>>◌}
use async_ai_document_pipeli.Core.Settings.{Settings}
use async_ai_document_pipeli.Platform.{Platform}
use async_ai_document_pipeli.Platform.World.{World}
use async_ai_document_pipeli.Services.Queue.{DeliveredEvent}
use async_ai_document_pipeli.Services.Queue.Consuming.{ack, read}
use async_ai_document_pipeli.Worker.Processor.{ProcessingOutcome, process}

module _ (p : Platform) (settings : Settings p.Float) (consumer_name : String) where
  -- `self._processed += 1`
  unfoldable pub count_processed : Exec (World p) (Unit {0})
  count_processed w = pure tt (record w { processed = w.processed + 1 })

  -- After `process`: nothing is acknowledged when it raised.
  unfoldable pub acknowledge :
      DeliveredEvent → Outcome ProcessingOutcome → Exec (World p) (Option ProcessingOutcome)
  acknowledge delivered (raised e) = pure none
  acknowledge delivered (ok outcome) = do
    ack p settings delivered.message_id
    count_processed
    pure (some outcome)

  unfoldable pub handle : DeliveredEvent → Exec (World p) (Option ProcessingOutcome)
  handle delivered w =
      let (r, w') = process p settings consumer_name delivered w in acknowledge delivered r w'

  -- `for item in delivered: await self.handle(item)`
  unfoldable pub handle_all : List DeliveredEvent → Exec (World p) (Unit {0})
  handle_all [] = pure tt
  handle_all (item ∷ items) = handle item >> handle_all items

  -- What a loop does with the entries that it has read: a failure to read is logged, and the loop
  -- goes on after a pause.
  unfoldable pub handle_read : Outcome (List DeliveredEvent) → Exec (World p) (Unit {0})
  handle_read (ok delivered) = handle_all delivered
  handle_read (raised e) = elim (is_queue_error e) [ true ↦ pure tt | false ↦ raise e ]

  -- One round of `run`.
  unfoldable pub run_round : Exec (World p) (Unit {0})
  run_round w = let (r, w') = read p settings consumer_name w in handle_read r w'

  -- The rounds of `run` until `shutdown` is seen.
  unfoldable pub run : ℕ → Exec (World p) (Unit {0})
  run zero = pure tt
  run (suc rounds) = run_round >> run rounds
