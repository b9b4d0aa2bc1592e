-- ===== src/Samples/Model.antt =====
-- A client of the vendor's library that counts its calls and always answers with one value.
use async_ai_document_pipeli.Prelude.{ℕ, suc, ◌≡◌, refl, true, none, some, [], ◌∷◌}
use async_ai_document_pipeli.Core.Enums.{generic}
use async_ai_document_pipeli.Core.Errors.{Exn, foreign}
use async_ai_document_pipeli.Core.Exec.{ok}
use async_ai_document_pipeli.Db.Models.{Json, obj, field, num, end}
use async_ai_document_pipeli.Llm.Outputs.{ExtractionOutput}
use async_ai_document_pipeli.Llm.OpenAi.{
  extract, parse, complete, accept_or_repair, parsed_model, of_message, conforming, is_truthy,
  usage_input, usage_output, payload_confidence,
}
use async_ai_document_pipeli.Llm.OpenAi.Client.{Sdk}
use async_ai_document_pipeli.Llm.OpenAi.Conforming.{SdkLaws}

abbrev pub sample_value : Json
sample_value = obj (field "confidence_score" (num (record { digits = 5; scale = 1 })) end)

abbrev pub counting_sdk : Sdk ℕ
counting_sdk = record {
  Parsed = Json;
  parse = λ _ _ _ n. (
    ok (record {
      choices = record { refusal = none; parsed = some sample_value; content = none } ∷ [];
      usage = none;
    }),
    suc n,
  );
  status_code = λ _. none;
  is_instance = λ _ _. true;
  model_validate = λ _ v. some v;
  model_validate_json = λ _ _. none;
  model_dump = λ v. v;
  as_classification = λ _. (generic, record { digits = 5; scale = 1 });
}

pub counting_laws : SdkLaws counting_sdk
counting_laws = record {
  validated = λ _ _ _ _. refl;
  validated_json = λ _ _ _ _. refl;
  calls = λ n. n;
  counted = λ _ _ _ _. refl;
}

abbrev pub rate_limit_error : Exn
rate_limit_error = foreign (record {
  type_name = "RateLimitError";
  classes = "openai.RateLimitError" ∷ "openai.APIStatusError" ∷ "openai.APIError" ∷ [];
  text = "429";
})

abbrev pub sample_extraction : ExtractionOutput
sample_extraction = record {
  document_type = generic;
  data_payload = sample_value;
  model_provider = "openai";
  model_name = "gpt-4o-mini";
  prompt_version = "v1";
  input_tokens = none;
  output_tokens = none;
  confidence_score = some (record { digits = 5; scale = 1 });
}

pub extracted : (extract counting_sdk "gpt-4o-mini" "hello" generic 0).0 ≡ ok sample_extraction
unfolding extract parse complete accept_or_repair parsed_model of_message conforming is_truthy
    usage_input usage_output payload_confidence
extracted = refl
