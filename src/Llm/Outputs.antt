-- ===== src/Llm/Outputs.antt =====
-- app/llm/base.py: the results of the two operations of a provider.
use async_ai_document_pipeli.Prelude.{ℕ, ◌+◌, Option, none, some, String}
use async_ai_document_pipeli.Core.Enums.{DocumentType}
use async_ai_document_pipeli.Db.Models.{Json, Decimal}

pub record ExtractionOutput : Type 0 where
  pub document_type : DocumentType
  pub data_payload : Json
  pub model_provider : String
  pub model_name : String
  pub prompt_version : String
  pub input_tokens : Option ℕ
  pub output_tokens : Option ℕ
  pub confidence_score : Option Decimal

-- Combined token usage, or nothing if either side is unknown.
unfoldable pub total_tokens : ExtractionOutput → Option ℕ
total_tokens output = elim output.input_tokens [
  | none ↦ none
  | some i ↦ elim output.output_tokens [ none ↦ none | some o ↦ some (i + o) ]
]

pub record ClassificationOutput : Type 0 where
  pub document_type : DocumentType
  pub input_tokens : Option ℕ
  pub output_tokens : Option ℕ
  pub confidence_score : Option Decimal
