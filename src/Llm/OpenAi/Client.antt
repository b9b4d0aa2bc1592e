-- ===== src/Llm/OpenAi/Client.antt =====
-- The vendor's library as app/llm/openai_provider.py calls it, and the schemas that it is given, those of
-- app/schemas/extraction.py.
use async_ai_document_pipeli.Prelude.{ℕ, Bool, Option, List, String}
use async_ai_document_pipeli.Core.Enums.{DocumentType, invoice, resume, support_ticket, generic}
use async_ai_document_pipeli.Core.Errors.{Exn}
use async_ai_document_pipeli.Core.Exec.{Outcome}
use async_ai_document_pipeli.Db.Models.{Json, Decimal}
use async_ai_document_pipeli.Llm.Prompts.{ChatMessage}

-- The classes that a response may be asked to be of.
pub data ResponseFormat : Type 0 where
  invoice_extraction resume_extraction support_ticket_extraction generic_document_extraction :
      ResponseFormat
  document_classification : ResponseFormat

abbrev pub classification_format : ResponseFormat
classification_format = document_classification

-- `SCHEMA_REGISTRY`
unfoldable pub schema_registry : DocumentType → ResponseFormat
schema_registry invoice = invoice_extraction
schema_registry resume = resume_extraction
schema_registry support_ticket = support_ticket_extraction
schema_registry generic = generic_document_extraction

pub record Message (P : Type 0) : Type 0 where
  pub refusal : Option String
  pub parsed : Option P
  pub content : Option String

pub record Usage : Type 0 where
  pub prompt_tokens : Option ℕ
  pub completion_tokens : Option ℕ

pub record Completion (P : Type 0) : Type 0 where
  pub choices : List (Message P)
  pub usage : Option Usage

-- The client with its temperature, and Pydantic. A value that is parsed is an object of a type that
-- only these calls look into; nothing is a `ValidationError`.
pub record Sdk (L : Type 0) : Type 1 where
  pub Parsed : Type 0
  -- `client.chat.completions.parse` of a model, messages and a format
  pub parse : String → List ChatMessage → ResponseFormat → L → Outcome (Completion Parsed) × L
  -- `getattr(error, "status_code", None)`
  pub status_code : Exn → Option ℕ
  pub is_instance : ResponseFormat → Parsed → Bool
  pub model_validate : ResponseFormat → Parsed → Option Parsed
  pub model_validate_json : ResponseFormat → String → Option Parsed
  -- `parsed.model_dump(mode="json")`
  pub model_dump : Parsed → Json
  -- the attributes of a `DocumentClassification`
  pub as_classification : Parsed → DocumentType × Decimal
