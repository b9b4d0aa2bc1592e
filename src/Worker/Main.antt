-- ===== src/Worker/Main.antt =====
-- app/worker/main.py: the start of a worker, its end, and its exit code. The three loops run until all of
-- them have ended, as a parameter that says what they have raised; signals only set the event that ends them.
use async_ai_document_pipeli.Prelude.{
  ℕ, ◌≡◌, refl, ◌⊎◌, inl, inr, List, [], ◌∷◌, length, ◌⊕◌, show_int, ◌==◌, if◌then◌else◌,
}
use async_ai_document_pipeli.Core.Errors.{Exn, app, foreign}
use async_ai_document_pipeli.Core.Exec.{
  Outcome, ok, raised, Exec, continue, handle_with, pure, raise, ◌>>=◌, ◌>>◌, try_except,
}
use async_ai_document_pipeli.Core.Settings.{Settings}
use async_ai_document_pipeli.Db.Connection.{wait_for_database}
use async_ai_document_pipeli.Llm.Factory.{
  BuiltProvider, fake_provider, openai_provider, build_provider,
}
use async_ai_document_pipeli.Platform.{Platform}
use async_ai_document_pipeli.Platform.World.{World, lift}
use async_ai_document_pipeli.Services.Queue.{close}
use async_ai_document_pipeli.Services.Queue.Group.{ensure_group}
use async_ai_document_pipeli.Services.Queue.Producing.{connect}

-- What `asyncio.TaskGroup` raises when some of its tasks have: no class of the program derives from it.
unfoldable pub exception_group : ℕ → Exn
exception_group n = foreign (record {
  type_name = "ExceptionGroup";
  classes = "ExceptionGroup" ∷ "Exception" ∷ [];
  text =
      "unhandled errors in a TaskGroup ("
      ⊕ show_int n
      ⊕ (if n == 1 then " sub-exception)" else " sub-exceptions)");
})

-- How a group of tasks ends that have raised these.
unfoldable pub group_outcome : List Exn → Outcome (Unit {0})
unfolding exception_group
group_outcome [] = ok tt
group_outcome (e ∷ es) = raised (exception_group (length (e ∷ es)))

module _ (p : Platform) where
  -- `async with asyncio.TaskGroup()`, around tasks that end with what they have raised.
  unfoldable pub task_group : (World p → List Exn × World p) → Exec (World p) (Unit {0})
  unfolding group_outcome
  task_group tasks w = let (failures, v) = tasks w in (group_outcome failures, v)

  -- `close` of the vendor's client, and `dispose` of the engine.
  module _ (close_client dispose : Exec (World p) (Unit {0})) where
    -- `dispose_engine`, where there is an engine, which `start` has made: the caches that it clears are not
    -- read any more.
    unfoldable pub dispose_engine : Exec (World p) (Unit {0})
    dispose_engine = dispose

    -- `aclose` of the provider
    unfoldable pub aclose : BuiltProvider → Exec (World p) (Unit {0})
    aclose fake_provider = pure tt
    aclose (openai_provider model) = close_client

    -- The loop of `_shutdown`: what a close raises is reported, and the next is called.
    unfoldable pub close_each : List (Exec (World p) (Unit {0})) → World p → World p
    close_each [] w = w
    close_each (close_next ∷ closes) w = close_each closes (close_next w).1

    -- `_shutdown`
    unfoldable pub shut_down : BuiltProvider → World p → World p
    unfolding close_each aclose close dispose_engine
    shut_down provider = close_each (aclose provider ∷ close ∷ dispose_engine ∷ [])

    -- `try: … finally: await _shutdown(…)`
    unfoldable pub finally_shut_down :
        BuiltProvider → Exec (World p) (Unit {0}) → Exec (World p) (Unit {0})
    unfolding shut_down
    finally_shut_down provider body w = let (r, w') = body w in (r, shut_down provider w')

    module _ (settings : Settings p.Float) where
      -- What precedes the loops of `run_worker`.
      unfoldable pub start : Exec (World p) BuiltProvider
      unfolding wait_for_database connect ensure_group build_provider
      start = do
        wait_for_database p settings
        connect p settings
        ensure_group p settings
        lift (build_provider settings)

      -- The three loops, with the provider.
      module _ (loops : BuiltProvider → World p → List Exn × World p) where
        unfoldable pub run_worker : Exec (World p) (Unit {0})
        unfolding start finally_shut_down task_group
        run_worker =
            start >>= (λ provider. finally_shut_down provider (task_group (loops provider)))

        -- `except AppError`
        unfoldable pub exit_code : Exn → Exec (World p) ℕ
        exit_code (app e) = pure 1
        exit_code (foreign e) = raise (foreign e)

        unfoldable pub main : Exec (World p) ℕ
        unfolding run_worker exit_code
        main = try_except (run_worker >> pure 0) exit_code

        -- How `main` ends after a start that raised, and after loops with their failures.
        abbrev pub refused_start : Exn → Outcome ℕ
        refused_start (app e) = ok 1
        refused_start (foreign e) = raised (foreign e)

        abbrev pub ended : List Exn → Outcome ℕ
        ended [] = ok 0
        ended (e ∷ es) = raised (exception_group (length (e ∷ es)))

        ends :
            (failures : List Exn) (v : World p)
            → let (r, u) = continue (group_outcome failures) (λ _. pure {A = ℕ} 0) v in
              ◌≡◌ {A = Outcome ℕ × World p} (handle_with r exit_code u) (ended failures, v)
        unfolding group_outcome exit_code exception_group
        ends [] v = refl
        ends (e ∷ es) v = refl

        main_after :
            (r : Outcome BuiltProvider) (v : World p)
            → let run =
                continue r
                  (λ provider. finally_shut_down provider (task_group (loops provider)))
                  v in
              let (r₁, v₁) = continue run.0 (λ _. pure {A = ℕ} 0) run.1 in
              ((e : Exn) × (r ≡ raised e)
                × ◌≡◌ {A = Outcome ℕ × World p} (handle_with r₁ exit_code v₁) (refused_start e, v))
              ⊎ ((provider : BuiltProvider) × (r ≡ ok provider)
                  × (let u = (close (aclose provider (loops provider v).1).1).1 in
                      ◌≡◌ {A = Outcome ℕ × World p}
                        (handle_with r₁ exit_code v₁)
                        (ended (loops provider v).0, (dispose_engine u).1)))
        unfolding finally_shut_down task_group shut_down close_each exit_code
        main_after (raised (app e)) v = inl (app e, refl, refl)
        main_after (raised (foreign e)) v = inl (foreign e, refl, refl)
        main_after (ok provider) v =
            let (failures, u) = loops provider v in
            inr (provider, refl, ends failures (dispose_engine (close (aclose provider u).1).1).1)

        -- If the start of a worker raises, nothing is closed; the exit code is 1 for an
        -- `AppError`, and any other exception leaves the process. If it succeeds, then after the
        -- loops the provider, the queue and the engine are closed, each once and in this order,
        -- whatever the loops have raised and whichever close raises. Then 0 is returned if no
        -- loop has raised, and otherwise an `ExceptionGroup` leaves the process, also where a
        -- loop raised an `AppError`.
        pub main-settled :
            (w : World p)
            → ((e : Exn) × ((start w).0 ≡ raised e) × (main w ≡ (refused_start e, (start w).1)))
              ⊎ ((provider : BuiltProvider) × ((start w).0 ≡ ok provider)
                  × (let (failures, v) = loops provider (start w).1 in
                      let u = (close (aclose provider v).1).1 in
                      main w ≡ (ended failures, (dispose_engine u).1)))
        unfolding main run_worker
        main-settled w = main_after (start w).0 (start w).1
