-- ===== src/Samples/Memory.antt =====
-- The platform in memory, with the laws that the theorems ask for.
use async_ai_document_pipeli.Prelude.{
  ℕ, ◌+◌, ◌*◌, ◌/◌, refl, sym, ap, inl, true, none, some, List, [], ◌∷◌, String, str_eq, leb,
  if◌then◌else◌, show_int,
}
use async_ai_document_pipeli.Core.Enums.{
  LlmProviderName, queued, invoice, generic, document_processing_requested,
}
use async_ai_document_pipeli.Core.Errors.{Exn, app_exn, storage_path}
use async_ai_document_pipeli.Core.Exec.{Outcome, ok, raised}
use async_ai_document_pipeli.Core.Exec.Inversion.{ok-injective}
use async_ai_document_pipeli.Core.Settings.{Settings}
use async_ai_document_pipeli.Db.Models.{Json, Document, ProcessingJob, StoredFile}
use async_ai_document_pipeli.Platform.{
  Platform, Bytes, Files, Parsers, Provider, Floats, Environment, Codec,
}
use async_ai_document_pipeli.Platform.Laws.{DbLaws}
use async_ai_document_pipeli.Platform.World.{World}
use async_ai_document_pipeli.Schemas.Events.{Event}
use async_ai_document_pipeli.Samples.Database.{Tables, tables, table_laws, find_job, find_result}
use async_ai_document_pipeli.Samples.Redis.{Store, empty_store, redis_in_memory}

-- The files that were saved, by their keys.
abbrev pub Disk : Type 0
Disk = List (String × Bytes)

abbrev read_file : String → Disk → Outcome Bytes
read_file key [] = raised (app_exn storage_path "The stored file no longer exists.")
read_file key ((k, bytes) ∷ disk) = if str_eq k key then ok bytes else read_file key disk

abbrev disk : Files Disk
disk = record {
  save = λ bytes extension d.
      let file : StoredFile = record {
        stored_filename = "f.txt";
        storage_path = "2026/01/01/f.txt";
        size = 1;
        checksum = "sum";
      } in
      (ok file, (("2026/01/01/f.txt", bytes) ∷ d));
  read = λ key d. (read_file key d, d);
}

-- Every text file reads "hello".
abbrev parsers : Parsers
parsers = record {
  pdf_pages = λ _. ok ("hello" ∷ []);
  docx_texts = λ _. ok (("hello" ∷ []), []);
  decode = λ _ _. some "hello";
  lower = λ s. s;
  repr = λ s. s;
  ascii_fold = λ s. s;
}

-- The failures that the next calls raise, one each, as `FakeLLMProvider` has them.
abbrev pub Failures : Type 0
Failures = List Exn

abbrev answer : {A : Type 0} → A → Failures → Outcome A × Failures
answer a [] = (ok a, [])
answer a (e ∷ failures) = (raised e, failures)

abbrev fake_provider : Provider Failures
fake_provider = record {
  classify = λ _. answer (record {
    document_type = generic;
    input_tokens = none;
    output_tokens = none;
    confidence_score = none;
  });
  extract = λ _ document_type. answer (record {
    document_type = document_type;
    data_payload = Json.null;
    model_provider = "fake";
    model_name = "fake-extractor-1";
    prompt_version = "fake-v1";
    input_tokens = none;
    output_tokens = none;
    confidence_score = none;
  });
}

-- Seconds without a fraction, and no negative ones.
abbrev pub whole_seconds : Floats ℕ
whole_seconds = record {
  zero_f = 0;
  add = λ a b. a + b;
  mul = λ a b. a * b;
  neg = λ _. 0;
  leq = leb;
  one_f = 1;
  of_int = λ n. some n;
  show_ratio = λ a b. show_int (a / b);
}

pub record Clock : Type 0 where
  pub now : ℕ
  pub fresh : ℕ

-- The clock moves by a microsecond at each reading.
abbrev pub clock : Environment Clock ℕ
clock = record {
  utcnow = λ c. (c.now, record c { now = c.now + 1 });
  uuid4 = λ c. (c.fresh, record c { fresh = c.fresh + 1 });
  uniform = λ lo hi c. (lo, c);
  timestamp = λ t. t / 1000000;
  whole_ms = λ n. n / 1000;
}

abbrev pub sample_event : Event
sample_event = record {
  event_id = 900;
  event_type = document_processing_requested;
  event_version = 1;
  job_id = 7;
  document_id = 3;
  storage_path = "2026/01/01/f.txt";
  requested_document_type = some invoice;
  attempt = 0;
  created_at = 0;
  correlation_id = none;
}

-- The only events of the runs are the sample and those that retry it.
abbrev codec : Codec
codec = record {
  dump_json = λ e. show_int e.attempt;
  validate_json = λ s.
      if str_eq s "0"
      then some sample_event
      else if str_eq s "1"
      then some (record sample_event { attempt = 1 })
      else none;
}

unfoldable pub memory : Platform
unfolding tables redis_in_memory
memory = record {
  Db = Tables;
  Redis = Store;
  Storage = Disk;
  Llm = Failures;
  Env = Clock;
  Float = ℕ;
  db = tables;
  redis = redis_in_memory;
  files = disk;
  parsers = parsers;
  llm = fake_provider;
  float = whole_seconds;
  env = clock;
  codec = codec;
}

pub memory_laws : DbLaws memory
unfolding memory
memory_laws = record {
  job_key = table_laws.job_key;
  select_reads = λ id t row h. sym (ok-injective h);
  select_keeps_job = λ id other t. refl;
  select_keeps_result = λ id other t. refl;
  commit_job = λ changes t id h. (table_laws.applied changes t id h).jobs;
  commit_result = λ changes t id h. (table_laws.applied changes t id h).results;
  commit_atomic = λ changes t id e h. inl (
    ap (λ s. find_job id s.jobs) (table_laws.refused changes t e h),
    ap (λ s. find_result id s.results) (table_laws.refused changes t e h),
  );
  duplicate_key = λ job row t id h. ap (λ s. find_job id s.jobs) (table_laws.duplicate job row t h);
  integrity_job = λ changes t id e h _. (
    ap (λ s. find_job id s.jobs) (table_laws.refused changes t e h),
    ap (λ s. find_result id s.results) (table_laws.refused changes t e h),
  );
}

abbrev pub settings : Settings ℕ
settings = record {
  db_connect_max_attempts = 30;
  redis_stream_name = "document-processing";
  redis_consumer_group = "document-workers";
  redis_block_ms = 5000;
  redis_read_count = 1;
  redis_connect_max_attempts = 30;
  max_retries = 3;
  retry_base_delay_seconds = 2;
  retry_max_delay_seconds = 60;
  retry_jitter_ratio = 0;
  pending_min_idle_ms = 60000;
  max_delivery_count = 5;
  stale_processing_seconds = 600;
  max_upload_bytes = 10485760;
  allowed_extensions = ".pdf" ∷ ".txt" ∷ ".docx" ∷ [];
  llm_provider = LlmProviderName.fake;
  openai_api_key = none;
  openai_model = "gpt-4o-mini";
  llm_max_input_chars = 40000;
  classification_max_chars = 2000;
  raw_text_store_max_chars = 20000;
}

abbrev pub sample_document : Document
sample_document = record {
  id = 3;
  original_filename = "invoice.txt";
  stored_filename = "f.txt";
  content_type = "text/plain";
  file_size = 5;
  storage_path = "2026/01/01/f.txt";
  checksum = "sum";
  requested_document_type = some invoice;
}

abbrev pub sample_job : ProcessingJob
sample_job = record {
  id = 7;
  document = sample_document;
  status = queued;
  retry_count = 0;
  max_retries = 3;
  error_message = none;
  queued_at = 0;
  started_at = none;
  completed_at = none;
  processing_duration_ms = none;
  consumer_name = none;
}

-- A world whose database holds one job, at a given time; `failures` wait in the provider.
unfoldable pub world_with : ProcessingJob → ℕ → Failures → World memory
unfolding memory
world_with job now failures = record {
  db = record { jobs = job ∷ []; results = [] };
  session = [];
  connected = true;
  registered = true;
  redis = empty_store;
  processed = 0;
  storage = ("2026/01/01/f.txt", (104 ∷ [])) ∷ [];
  llm = failures;
  env = record { now = now; fresh = 1000 };
}

-- The settings, for the platform in memory.
unfoldable pub memory_settings : Settings memory.Float
unfolding memory
memory_settings = settings
