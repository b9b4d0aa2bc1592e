-- ===== src/Lib.antt =====
-- Verification of the asynchronous document pipeline.
--
-- The program accepts a document over HTTP, stores the file and a job row, and publishes an event to a
-- Redis stream. Workers read the events, claim the job with a conditional UPDATE, extract the text, ask a
-- language model for a structured record, and commit the result with the terminal state. Failures are
-- retried with backoff through a sorted set of delayed events; entries that a worker abandoned are taken
-- over by a sweeper. The job's row is the only truth about its progress; delivery is at least once.
--
-- The parts, with the files that model them:
--   * Core/Enums, Core/Errors, Core/Settings: app/core/enums.py, exceptions.py and config.py. A class of
--     the hierarchy is a constructor, and its attributes are looked up along its bases, as Python does.
--     Core/Exec is the way the program runs: a state, and a value or an exception. Core/Paths is the part
--     of `pathlib` that the code uses.
--   * Db/Models, Db/Session: app/db/models, and the changes that an open session has pending.
--   * Platform: what the program calls and does not implement, as a record of operations on states of
--     their own: PostgreSQL behind SQLAlchemy, Redis, the disk, the parsers, the model, the clock, random
--     values and floats. Platform/World is one process's view of it. Platform/Laws states what the
--     theorems rely on of the database, and Platform/Refresh is `session.refresh`.
--   * Services/JobService: app/services/job_service.py. `update_where` is the conditional UPDATE of
--     `claim_job`; the row is locked from then on, so no other transaction comes between it and its commit.
--   * Services/Queue: app/services/queue.py, the producing and the consuming half in files of their own.
--   * Services/Publisher, Services/TextExtraction: the modules of the same names in app/services.
--   * Services/FileValidation: app/services/file_validation.py; Filename is `sanitize_filename`, and Upload
--     is `validate_upload`.
--   * Services/FileStorage: `LocalFileStorage` of app/services/file_storage.py, over the disk's calls.
--   * Services/Metrics: app/services/metrics.py, over the answers of its queries.
--   * Llm: app/llm. OpenAi is the provider over the vendor's library, Fake the deterministic one, Factory the
--     choice between them. Schemas/Extraction has the schemas of app/schemas/extraction.py as data.
--   * Api: of app/api, the upload and the retry endpoint, the readiness probe, and the handlers of
--     exceptions in main.py. Publishing is the end that the upload and the retry share.
--   * Core/Config, Core/Logging: the validators and the masking of config.py, the processors of logging.py.
--   * Db/Connection: waiting for the database, in app/db/session.py.
--   * System: requests, events and rounds of loops of any processes as steps on one database.
--   * Worker/RetryPolicy, Worker/Processor, Worker/Consumer, Worker/Recovery: the modules of app/worker,
--     and Worker/Main is main.py. A `try` block and what follows it are functions of their own, so that
--     each branch has a name.
--   * Samples: a database, a Redis and a provider in memory, on which the theorems are applied.
--
-- Bounds: an instant is a number of microseconds and a UUID a number. Numbers of Python are unbounded, and
-- so are these. The loops of the worker run until they are told to stop, so a run is given the number of
-- its rounds. The attempts of `connect` and of `wait_for_database` are counted by the settings themselves.
-- A step of System is a whole request, event or round; that two of them are interleaved within is not
-- modelled, but each may stop at any call that raises.
--
-- Not modelled: the output of logs and its configuration; the `details` that an exception carries; columns
-- that nothing reads; the HTTP routes that only read; the middleware; the caches of the engine, the queue
-- and the storage in a process; the set-up of the libraries.
pub mod Prelude
pub mod Core
pub mod Db
pub mod Schemas
pub mod Llm
pub mod Platform
pub mod Services
pub mod Api
pub mod Worker
pub mod System
pub mod Samples
