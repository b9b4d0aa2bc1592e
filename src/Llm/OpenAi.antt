-- ===== src/Llm/OpenAi.antt =====
-- app/llm/openai_provider.py, over the vendor's library as a parameter.
pub mod Client
pub mod Conforming
use async_ai_document_pipeli.Prelude.{
  ℕ, Bool, true, false, ◌||◌, Option, none, some, List, [], ◌∷◌, ◌++◌, String, str_eq, ◌==◌,
  if◌then◌else◌, is_empty,
}
use async_ai_document_pipeli.Core.Enums.{DocumentType}
use async_ai_document_pipeli.Core.Errors.{
  Exn, app_exn, isinstance, isinstance_any, llm_rate_limit, llm_timeout, llm_authentication,
  llm_provider, llm_response_validation,
}
use async_ai_document_pipeli.Core.Exec.{
  Outcome, ok, raised, Exec, pure, raise, ◌>>=◌, ◌>>◌, try_except,
}
use async_ai_document_pipeli.Db.Models.{Json, obj, Fields, end, field, num, Decimal}
use async_ai_document_pipeli.Llm.Outputs.{ExtractionOutput, ClassificationOutput}
use async_ai_document_pipeli.Llm.Prompts.{
  ChatMessage, prompt_version, classification_messages, extraction_messages, repair_user_message,
}
use async_ai_document_pipeli.Llm.OpenAi.Client.{
  Sdk, Message, Usage, Completion, ResponseFormat, classification_format, schema_registry,
}
use async_ai_document_pipeli.Platform.{Provider}

abbrev pub rate_limited : Exn
rate_limited = app_exn llm_rate_limit "The language model provider rate-limited the request."

abbrev pub timed_out : Exn
timed_out = app_exn llm_timeout "The language model request timed out."

abbrev pub unauthenticated : Exn
unauthenticated =
    app_exn llm_authentication "The language model provider rejected the API credentials."

abbrev pub unreachable : Exn
unreachable = app_exn llm_provider "Could not reach the language model provider."

abbrev pub provider_failed : Exn
provider_failed = app_exn llm_provider "The language model provider returned an error."

-- The mapping of an error that has a status and is of no class with a meaning of its own.
unfoldable pub map_status : Option ℕ → Exn
map_status none = provider_failed
map_status (some status) =
    if status == 429
    then rate_limited
    else if (status == 401) || (status == 403)
    then unauthenticated
    else provider_failed

unfoldable pub is_truthy : Option String → Bool
is_truthy none = false
is_truthy (some text) = if is_empty text then false else true

abbrev pub text_or_empty : Option String → String
text_or_empty none = ""
text_or_empty (some text) = text

-- `payload.get("confidence_score")` where it is a number.
unfoldable pub confidence_in : Fields → Option Decimal
confidence_in end = none
confidence_in (field key value fields) = elim (str_eq key "confidence_score") [
  | true ↦ elim value [ num d ↦ some d | _ ↦ none ]
  | false ↦ confidence_in fields
]

unfoldable pub payload_confidence : Json → Option Decimal
unfolding confidence_in
payload_confidence (obj fields) = confidence_in fields
payload_confidence _ = none

unfoldable pub usage_input : Option Usage → Option ℕ
usage_input none = none
usage_input (some usage) = usage.prompt_tokens

unfoldable pub usage_output : Option Usage → Option ℕ
usage_output none = none
usage_output (some usage) = usage.completion_tokens

module _ {L : Type 0} (sdk : Sdk L) where
  unfoldable pub map_openai_error : Exn → Exn
  unfolding map_status
  map_openai_error e =
      if isinstance e "openai.RateLimitError"
      then rate_limited
      else if isinstance e "openai.APITimeoutError"
      then timed_out
      else if isinstance e "openai.AuthenticationError"
      then unauthenticated
      else if isinstance e "openai.APIConnectionError"
      then unreachable
      else map_status (sdk.status_code e)

  abbrev pub stopped_early : List String
  stopped_early = "openai.LengthFinishReasonError" ∷ "openai.ContentFilterFinishReasonError" ∷ []

  -- The `except` clauses of `_complete`.
  unfoldable pub as_llm_error : Exn → Exn
  unfolding map_openai_error
  as_llm_error e =
      if isinstance_any e stopped_early
      then app_exn llm_response_validation
          "The language model stopped before producing a valid response."
      else if isinstance e "openai.APIError"
      then map_openai_error e
      else e

  unfoldable pub complete :
      String → List ChatMessage → ResponseFormat → Exec L (Completion sdk.Parsed)
  unfolding as_llm_error
  complete model messages response_format =
      try_except (sdk.parse model messages response_format) (λ e. raise (as_llm_error e))

  -- A value that the library has parsed: of the format, or validated against it.
  unfoldable pub conforming : ResponseFormat → sdk.Parsed → Option sdk.Parsed
  conforming response_format parsed =
      if sdk.is_instance response_format parsed
      then some parsed
      else sdk.model_validate response_format parsed

  unfoldable pub of_message : ResponseFormat → Message sdk.Parsed → Option sdk.Parsed
  unfolding conforming is_truthy
  of_message response_format message =
      if is_truthy message.refusal then none else elim message.parsed [
        | some parsed ↦ conforming response_format parsed
        | none ↦
            if is_truthy message.content
            then sdk.model_validate_json response_format (text_or_empty message.content)
            else none
      ]

  -- `_parsed_model`
  unfoldable pub parsed_model : Completion sdk.Parsed → ResponseFormat → Option sdk.Parsed
  unfolding of_message
  parsed_model completion response_format = elim completion.choices [
    | [] ↦ none
    | message ∷ messages ↦ of_message response_format message
  ]

  unfoldable pub assistant_text : Completion sdk.Parsed → String
  unfolding is_truthy
  assistant_text completion = elim completion.choices [
    | [] ↦ ""
    | message ∷ messages ↦
        if is_truthy message.content
        then text_or_empty message.content
        else text_or_empty message.refusal
  ]

  -- The messages of the second call: those of the first, its answer, and the request to repair it.
  unfoldable pub repair_messages : List ChatMessage → Completion sdk.Parsed → List ChatMessage
  unfolding assistant_text
  repair_messages messages completion =
      messages
      ++ (record { role = "assistant"; content = assistant_text completion }
          ∷ record { role = "user"; content = repair_user_message }
          ∷ [])

  abbrev pub not_repaired : Exn
  not_repaired =
      app_exn llm_response_validation
        "The language model returned a response that failed schema validation after one repair attempt."

  -- What is left of `_parse` after the second call.
  unfoldable pub accept_repaired :
      ResponseFormat → Completion sdk.Parsed → Exec L (sdk.Parsed × Option Usage)
  unfolding parsed_model
  accept_repaired response_format repaired = elim (parsed_model repaired response_format) [
    | some parsed ↦ pure (parsed, repaired.usage)
    | none ↦ raise not_repaired
  ]

  -- What is left of it after the first.
  unfoldable pub accept_or_repair :
      String
      → List ChatMessage
      → ResponseFormat
      → Completion sdk.Parsed
      → Exec L (sdk.Parsed × Option Usage)
  unfolding parsed_model accept_repaired complete repair_messages
  accept_or_repair model messages response_format completion =
      elim (parsed_model completion response_format) [
        | some parsed ↦ pure (parsed, completion.usage)
        | none ↦
            complete model (repair_messages messages completion) response_format
            >>= accept_repaired response_format
      ]

  unfoldable pub parse :
      String → List ChatMessage → ResponseFormat → Exec L (sdk.Parsed × Option Usage)
  unfolding complete accept_or_repair
  parse model messages response_format =
      complete model messages response_format >>= accept_or_repair model messages response_format

  unfoldable pub classify : String → String → Exec L ClassificationOutput
  unfolding parse usage_input usage_output
  classify model text = do
    result ← parse model (classification_messages text) classification_format
    let decided = sdk.as_classification result.0
    pure record {
      document_type = decided.0;
      input_tokens = usage_input result.1;
      output_tokens = usage_output result.1;
      confidence_score = some decided.1;
    }

  unfoldable pub extract : String → String → DocumentType → Exec L ExtractionOutput
  unfolding parse usage_input usage_output payload_confidence
  extract model text document_type = do
    result ← parse model (extraction_messages text document_type) (schema_registry document_type)
    let payload = sdk.model_dump result.0
    pure record {
      document_type = document_type;
      data_payload = payload;
      model_provider = "openai";
      model_name = model;
      prompt_version = prompt_version;
      input_tokens = usage_input result.1;
      output_tokens = usage_output result.1;
      confidence_score = payload_confidence payload;
    }

  -- The provider of the model that the settings name.
  abbrev pub openai_provider : String → Provider L
  openai_provider model = record { classify = classify model; extract = extract model }
