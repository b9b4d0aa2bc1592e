-- ===== src/Worker/Recovery.antt =====
-- app/worker/recovery.py: the sweepers beside the consumer. A loop is given the rounds that it makes until
-- `shutdown` is seen; its pauses change nothing.
use async_ai_document_pipeli.Prelude.{ℕ, zero, suc, true, false, List, [], ◌∷◌, String}
use async_ai_document_pipeli.Core.Errors.{Exn, is_queue_error}
use async_ai_document_pipeli.Core.Exec.{Exec, pure, raise, ◌>>=◌, ◌>>◌, try_except}
use async_ai_document_pipeli.Core.Settings.{Settings}
use async_ai_document_pipeli.Schemas.Events.{Event}
use async_ai_document_pipeli.Platform.{Platform}
use async_ai_document_pipeli.Platform.World.{World}
use async_ai_document_pipeli.Services.Queue.Producing.{publish, pop_due_retries}
use async_ai_document_pipeli.Services.Queue.Consuming.{claim_stale}
use async_ai_document_pipeli.Worker.Consumer.{handle_read}

-- `except QueueError` of `run_retry_scheduler`.
unfoldable pub scheduler_failed : {p : Platform} → Exn → Exec (World p) (Unit {0})
scheduler_failed e = elim (is_queue_error e) [ true ↦ pure tt | false ↦ raise e ]

module _ (p : Platform) (settings : Settings p.Float) where
  -- One round of `run_pending_recovery`.
  unfoldable pub recovery_round : String → Exec (World p) (Unit {0})
  recovery_round consumer_name w =
      let (r, w') = claim_stale p settings consumer_name w in
      handle_read p settings consumer_name r w'

  unfoldable pub run_pending_recovery : String → ℕ → Exec (World p) (Unit {0})
  run_pending_recovery consumer_name zero = pure tt
  run_pending_recovery consumer_name (suc rounds) =
      recovery_round consumer_name >> run_pending_recovery consumer_name rounds

  -- `for event in due: await queue.publish(event)`
  unfoldable pub publish_all : List Event → Exec (World p) (Unit {0})
  publish_all [] = pure tt
  publish_all (event ∷ events) = publish p settings event >> publish_all events

  -- One round of `run_retry_scheduler`; `pop_due_retries` takes 50 at most.
  unfoldable pub scheduler_round : Exec (World p) (Unit {0})
  scheduler_round = try_except (pop_due_retries p settings 50 >>= publish_all) scheduler_failed

  unfoldable pub run_retry_scheduler : ℕ → Exec (World p) (Unit {0})
  run_retry_scheduler zero = pure tt
  run_retry_scheduler (suc rounds) = scheduler_round >> run_retry_scheduler rounds
