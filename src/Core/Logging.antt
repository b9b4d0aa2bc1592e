-- ===== src/Core/Logging.antt =====
-- The two processors of app/core/logging.py that guard what is logged. The set-up of the loggers and the
-- context of a log line are the library's.
pub mod Redacted
use async_ai_document_pipeli.Prelude.{
  ℕ, Bool, true, false, ◌||◌, List, [], ◌∷◌, String, str_eq, elem, ltb, if◌then◌else◌, ◌⊕◌, len,
  prefix, contains, show_int, after, ◌-◌,
}

-- The values of an event: texts, dictionaries, and what is neither, by its text.
mutual
  pub data LogValue : Type 0 where
    text : String → LogValue
    dict : LogFields → LogValue
    other : String → LogValue

  pub data LogFields : Type 0 where
    end : LogFields
    entry : String → LogValue → LogFields → LogFields

abbrev pub sensitive_keys : List String
sensitive_keys =
    "api_key" ∷ "authorization" ∷ "credentials" ∷ "database_url" ∷ "openai_api_key" ∷ "password"
    ∷ "redis_url" ∷ "secret" ∷ "token" ∷ []

abbrev pub max_value_chars : ℕ
max_value_chars = 1000

abbrev pub redacted : LogValue
redacted = text "***redacted***"

-- `s.endswith(end)`
unfoldable pub ends_with : String → String → Bool
ends_with ending s =
    if ltb (len s) (len ending) then false else str_eq (after (len s - len ending) s) ending

-- `str.lower` is a parameter.
module _ (lower : String → String) where
  unfoldable pub is_sensitive : String → Bool
  unfolding ends_with
  is_sensitive key =
      let lowered = lower key in
      elem str_eq lowered sensitive_keys
      || contains "api_key" lowered
      || contains "password" lowered
      || contains "secret" lowered
      || ends_with "_token" lowered

  -- The comprehension over a nested dictionary.
  unfoldable pub redact_inner : LogFields → LogFields
  redact_inner end = end
  redact_inner (entry key value fields) =
      entry key (if is_sensitive key then redacted else value) (redact_inner fields)

  unfoldable pub redact_value : LogValue → LogValue
  unfolding redact_inner
  redact_value (text s) = text s
  redact_value (dict fields) = dict (redact_inner fields)
  redact_value (other s) = other s

  unfoldable pub redact_sensitive : LogFields → LogFields
  unfolding redact_value
  redact_sensitive end = end
  redact_sensitive (entry key value fields) =
      entry key (if is_sensitive key then redacted else redact_value value)
        (redact_sensitive fields)

unfoldable pub truncate_value : LogValue → LogValue
truncate_value (text s) =
    if ltb max_value_chars (len s)
    then text (prefix max_value_chars s ⊕ ("... [truncated " ⊕ (show_int (len s) ⊕ " chars]")))
    else text s
truncate_value (dict fields) = dict fields
truncate_value (other s) = other s

unfoldable pub truncate_long_values : LogFields → LogFields
unfolding truncate_value
truncate_long_values end = end
truncate_long_values (entry key value fields) =
    entry key (truncate_value value) (truncate_long_values fields)
