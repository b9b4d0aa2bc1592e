-- ===== src/Worker/Reached.antt =====
-- The loops of app/worker move the committed rows along their lives, whatever fails.
use async_ai_document_pipeli.Prelude.{◌≡◌, refl, List, [], ◌∷◌, String, arith}
use async_ai_document_pipeli.Core.Errors.{Exn}
use async_ai_document_pipeli.Core.Exec.{Outcome, ok, raised, ◌>>=◌}
use async_ai_document_pipeli.Core.Settings.{Settings}
use async_ai_document_pipeli.Platform.{Platform}
use async_ai_document_pipeli.Platform.Laws.{DbLaws}
use async_ai_document_pipeli.Platform.World.{World}
use async_ai_document_pipeli.Schemas.Events.{Event}
use async_ai_document_pipeli.Services.JobService.Advance.{
  Advances, Advances-eq, Advances-trans, >>=-Advances, try_except-Advances,
}
use async_ai_document_pipeli.Services.Queue.{DeliveredEvent}
use async_ai_document_pipeli.Services.Queue.Consuming.{ack, read, claim_stale}
use async_ai_document_pipeli.Services.Queue.Producing.{publish, pop_due_retries}
use async_ai_document_pipeli.Services.Queue.Untouched.{
  ack-Advances, read-Advances, claim_stale-Advances, publish-Advances, pop_due_retries-Advances,
}
use async_ai_document_pipeli.Worker.Consumer.{
  count_processed, acknowledge, handle, handle_all, handle_read, run_round,
}
use async_ai_document_pipeli.Worker.Processor.{ProcessingOutcome, process}
use async_ai_document_pipeli.Worker.Processor.Reached.{process-Advances}
use async_ai_document_pipeli.Worker.Recovery.{
  recovery_round, publish_all, scheduler_failed, scheduler_round,
}

module _ (p : Platform) (laws : DbLaws p) (settings : Settings p.Float) (consumer : String) where
  acknowledge-Advances :
      (delivered : DeliveredEvent) (r : Outcome ProcessingOutcome) (w : World p)
      → Advances p w.db (acknowledge p settings consumer delivered r w).1.db
  unfolding acknowledge count_processed
  acknowledge-Advances delivered (raised e) w = Advances-eq p refl
  acknowledge-Advances delivered (ok outcome) w =
      >>=-Advances _ w (ack p settings delivered.message_id)
        (ack-Advances p settings delivered.message_id w) (λ a h. Advances-eq p refl)

  pub handle-Advances :
      (delivered : DeliveredEvent) (w : World p)
      → Advances p w.db (handle p settings consumer delivered w).1.db
  unfolding handle
  handle-Advances delivered w =
      Advances-trans p (process-Advances p laws settings delivered consumer w)
        (acknowledge-Advances delivered _ (process p settings consumer delivered w).1)

  handle_all-Advances :
      (items : List DeliveredEvent) (w : World p)
      → Advances p w.db (handle_all p settings consumer items w).1.db
  unfolding handle_all
  handle_all-Advances [] w = Advances-eq p refl
  handle_all-Advances (item ∷ items) w =
      >>=-Advances (λ _. handle_all p settings consumer items) w (handle p settings consumer item)
        (handle-Advances item w)
        (λ a h. handle_all-Advances items (handle p settings consumer item w).1)

  handle_read-Advances :
      (r : Outcome (List DeliveredEvent)) (w : World p)
      → Advances p w.db (handle_read p settings consumer r w).1.db
  unfolding handle_read
  handle_read-Advances (ok delivered) w = handle_all-Advances delivered w
  handle_read-Advances (raised e) w = Advances-eq p (ground arith)

  pub run_round-Advances : (w : World p) → Advances p w.db (run_round p settings consumer w).1.db
  unfolding run_round
  run_round-Advances w =
      Advances-trans p (read-Advances p settings consumer w)
        (handle_read-Advances _ (read p settings consumer w).1)

  pub recovery_round-Advances :
      (w : World p) → Advances p w.db (recovery_round p settings consumer w).1.db
  unfolding recovery_round
  recovery_round-Advances w =
      Advances-trans p (claim_stale-Advances p settings consumer w)
        (handle_read-Advances _ (claim_stale p settings consumer w).1)

module _ (p : Platform) (settings : Settings p.Float) where
  publish_all-Advances :
      (events : List Event) (w : World p) → Advances p w.db (publish_all p settings events w).1.db
  unfolding publish_all
  publish_all-Advances [] w = Advances-eq p refl
  publish_all-Advances (event ∷ events) w =
      >>=-Advances (λ _. publish_all p settings events) w (publish p settings event)
        (publish-Advances p settings event w)
        (λ a h. publish_all-Advances events (publish p settings event w).1)

  swallowed : (e : Exn) (w : World p) → (scheduler_failed e w).1.db ≡ w.db
  unfolding scheduler_failed
  swallowed e w = ground arith

  pub scheduler_round-Advances : (w : World p) → Advances p w.db (scheduler_round p settings w).1.db
  unfolding scheduler_round
  scheduler_round-Advances w =
      try_except-Advances scheduler_failed w
        (pop_due_retries p settings 50 >>= publish_all p settings)
        (>>=-Advances (publish_all p settings) w (pop_due_retries p settings 50)
          (pop_due_retries-Advances p settings 50 w)
          (λ due h. publish_all-Advances due (pop_due_retries p settings 50 w).1))
        (λ e h. Advances-eq p (swallowed e _))
