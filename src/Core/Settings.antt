-- ===== src/Core/Settings.antt =====
-- app/core/config.py: the settings that the modelled code reads. A float is of an abstract type.
use async_ai_document_pipeli.Prelude.{ℕ, Option, List, String, ◌⊕◌}
use async_ai_document_pipeli.Core.Enums.{LlmProviderName}

pub record Settings (F : Type 0) : Type 0 where
  pub db_connect_max_attempts : ℕ
  pub redis_stream_name : String
  pub redis_consumer_group : String
  pub redis_block_ms : ℕ
  pub redis_read_count : ℕ
  pub redis_connect_max_attempts : ℕ
  pub max_retries : ℕ
  pub retry_base_delay_seconds : F
  pub retry_max_delay_seconds : F
  pub retry_jitter_ratio : F
  pub pending_min_idle_ms : ℕ
  pub max_delivery_count : ℕ
  pub stale_processing_seconds : ℕ
  pub max_upload_bytes : ℕ
  pub allowed_extensions : List String
  pub llm_provider : LlmProviderName
  pub openai_api_key : Option String
  pub openai_model : String
  pub llm_max_input_chars : ℕ
  pub classification_max_chars : ℕ
  pub raw_text_store_max_chars : ℕ

-- Sorted set holding events scheduled for a delayed retry.
unfoldable pub redis_retry_zset : {F : Type 0} → Settings F → String
redis_retry_zset settings = settings.redis_stream_name ⊕ ":retry"
