-- ===== src/Platform.antt =====
-- Everything that the program calls and does not implement: PostgreSQL behind SQLAlchemy, Redis, the
-- storage backend's disk, the model behind the provider, the clock, the generators of random
-- values, and floating-point arithmetic. Each is an operation on a state of its own.
pub mod World
pub mod Laws
pub mod Refresh
use async_ai_document_pipeli.Prelude.{ℕ, Bool, Option, List, String}
use async_ai_document_pipeli.Core.Enums.{DocumentType}
use async_ai_document_pipeli.Core.Exec.{Outcome}
use async_ai_document_pipeli.Db.Models.{Uuid, Instant, StoredFile, ProcessingJob, ExtractionResult}
use async_ai_document_pipeli.Db.Session.{Change}
use async_ai_document_pipeli.Schemas.Events.{Event}
use async_ai_document_pipeli.Llm.Outputs.{ExtractionOutput, ClassificationOutput}

-- SELECT of a job by key, and COMMIT of what is pending. `job` and `result` are the committed rows, which
-- no code calls: they are what statements about the database speak of.
pub record Database (Db : Type 0) : Type 0 where
  pub job : Db → Uuid → Option ProcessingJob
  pub result : Db → Uuid → Option ExtractionResult
  pub select_job : Uuid → Db → Outcome (Option ProcessingJob) × Db
  pub commit : List Change → Db → Outcome (Unit {0}) × Db
  -- a new connection, and `SELECT 1` on it
  pub ping : Db → Outcome (Unit {0}) × Db

abbrev pub StreamFields : Type 0
StreamFields = List (String × String)

pub record PendingEntry : Type 0 where
  pub message_id : String
  pub times_delivered : ℕ

-- The Redis commands that the queue sends, each with the connection's reply or exception. A score
-- is a float.
pub record RedisClient (R F : Type 0) : Type 0 where
  pub ping : R → Outcome (Unit {0}) × R
  pub aclose : R → Outcome (Unit {0}) × R
  pub xgroup_create : String → String → R → Outcome (Unit {0}) × R
  pub xadd : String → StreamFields → R → Outcome String × R
  pub zadd : String → String → F → R → Outcome (Unit {0}) × R
  -- a Lua script runs on the server, as one command
  pub eval_script : (R → List String × R) → R → Outcome (List String) × R
  pub zrangebyscore : String → F → ℕ → R → List String
  pub zrem : String → List String → R → R
  pub xreadgroup :
      String
      → String
      → String
      → ℕ
      → ℕ
      → R
      → Outcome (List (String × List (String × StreamFields))) × R
  pub xpending_range : String → String → ℕ → ℕ → R → Outcome (List PendingEntry) × R
  pub xclaim :
      String → String → String → ℕ → List String → R → Outcome (List (String × StreamFields)) × R
  pub xack : String → String → String → R → Outcome (Unit {0}) × R
  pub xlen : String → R → Outcome ℕ × R
  pub xpending : String → String → R → Outcome (Option ℕ) × R
  pub zcard : String → R → Outcome ℕ × R

abbrev pub Bytes : Type 0
Bytes = List ℕ

-- `FileStorage`: the backend behind its protocol.
pub record Files (S : Type 0) : Type 0 where
  pub save : Bytes → String → S → Outcome StoredFile × S
  pub read : String → S → Outcome Bytes × S

-- pypdf, python-docx, the codecs, and Unicode lower-casing.
pub record Parsers : Type 0 where
  -- the text of each page, or the parser's exception
  pub pdf_pages : Bytes → Outcome (List String)
  -- the texts of the paragraphs, then those of the table cells
  pub docx_texts : Bytes → Outcome (List String × List String)
  -- `data.decode(encoding)`; nothing is `UnicodeDecodeError`
  pub decode : String → Bytes → Option String
  pub lower : String → String
  -- `repr` of a text
  pub repr : String → String
  -- `unicodedata.normalize("NFKD", name)`, encoded as ASCII with what is not ASCII left out
  pub ascii_fold : String → String

-- `LLMProvider`.
pub record Provider (L : Type 0) : Type 0 where
  pub classify : String → L → Outcome ClassificationOutput × L
  pub extract : String → DocumentType → L → Outcome ExtractionOutput × L

-- Floating-point numbers, as far as the retry policy computes with them.
pub record Floats (F : Type 0) : Type 0 where
  pub zero_f : F
  pub add : F → F → F
  pub mul : F → F → F
  pub neg : F → F
  pub leq : F → F → Bool
  pub one_f : F
  -- `float(n)` of an integer; nothing is `OverflowError`
  pub of_int : ℕ → Option F
  -- `f"{round(a / b, 2)}"`
  pub show_ratio : ℕ → ℕ → String

-- The clock, the identifiers and the random numbers.
pub record Environment (E F : Type 0) : Type 0 where
  pub utcnow : E → Instant × E
  pub uuid4 : E → Uuid × E
  pub uniform : F → F → E → F × E
  -- `.timestamp()`
  pub timestamp : Instant → F
  -- `int(delta.total_seconds() * 1000)` of a non-negative difference, computed in floats
  pub whole_ms : ℕ → ℕ

-- The JSON texts of events, by Pydantic.
pub record Codec : Type 0 where
  pub dump_json : Event → String
  pub validate_json : String → Option Event

-- All of them together.
pub record Platform : Type 1 where
  pub Db : Type 0
  pub Redis : Type 0
  pub Storage : Type 0
  pub Llm : Type 0
  pub Env : Type 0
  pub Float : Type 0
  pub db : Database Db
  pub redis : RedisClient Redis Float
  pub files : Files Storage
  pub parsers : Parsers
  pub llm : Provider Llm
  pub float : Floats Float
  pub env : Environment Env Float
  pub codec : Codec
