-- ===== src/Llm/OpenAi/Conforming.antt =====
-- What app/llm/openai_provider.py returns conforms to the schema, after at most two calls of the model.
use async_ai_document_pipeli.Prelude.{
  ℕ, suc, ◌+◌, ◌<◌, ◌≤◌, ◌≡◌, refl, ap, subst, inl, inr, true, Option-cases, Option, none, some,
  List, [], ◌∷◌, String, arith,
}
use async_ai_document_pipeli.Core.Enums.{DocumentType}
use async_ai_document_pipeli.Core.Exec.{Outcome, ok, raised, pure, continue, ◌>>=◌}
use async_ai_document_pipeli.Core.Exec.Inversion.{>>=-ok, ok-injective}
use async_ai_document_pipeli.Llm.Outputs.{ExtractionOutput}
use async_ai_document_pipeli.Llm.Prompts.{ChatMessage, extraction_messages, prompt_version}
use async_ai_document_pipeli.Llm.OpenAi.{
  complete, conforming, of_message, parsed_model, accept_repaired, accept_or_repair, parse, extract,
  repair_messages, payload_confidence, usage_input, usage_output, text_or_empty,
}
use async_ai_document_pipeli.Llm.OpenAi.Client.{
  Sdk, Message, Usage, Completion, ResponseFormat, schema_registry,
}

-- What Pydantic promises of a validation that succeeds, and a count of the calls that the client makes.
pub record SdkLaws {L : Type 0} (sdk : Sdk L) : Type 0 where
  pub validated :
      (response_format : ResponseFormat) (parsed valid : sdk.Parsed)
      → sdk.model_validate response_format parsed ≡ some valid
      → sdk.is_instance response_format valid ≡ true
  pub validated_json :
      (response_format : ResponseFormat) (text : String) (valid : sdk.Parsed)
      → sdk.model_validate_json response_format text ≡ some valid
      → sdk.is_instance response_format valid ≡ true
  pub calls : L → ℕ
  pub counted :
      (model : String) (messages : List ChatMessage) (response_format : ResponseFormat) (l : L)
      → calls (sdk.parse model messages response_format l).1 ≡ suc (calls l)

module _ {L : Type 0} (sdk : Sdk L) (laws : SdkLaws sdk) (response_format : ResponseFormat) where
  -- An object that the library says is of the format.
  abbrev pub Conforms : sdk.Parsed → Type 0
  Conforms parsed = sdk.is_instance response_format parsed ≡ true

  conforming-Conforms :
      (parsed valid : sdk.Parsed)
      → conforming sdk response_format parsed ≡ some valid
      → Conforms valid
  unfolding conforming
  conforming-Conforms parsed valid h = ground (arith, laws.validated response_format parsed valid)

  of_message-Conforms :
      (message : Message sdk.Parsed) (valid : sdk.Parsed)
      → of_message sdk response_format message ≡ some valid
      → Conforms valid
  unfolding of_message
  of_message-Conforms message valid h = grind (
    arith,
    λ (p : sdk.Parsed). conforming-Conforms p valid,
    laws.validated_json response_format (text_or_empty message.content) valid,
  )

  parsed_model-Conforms :
      (completion : Completion sdk.Parsed) (valid : sdk.Parsed)
      → parsed_model sdk completion response_format ≡ some valid
      → Conforms valid
  unfolding parsed_model
  parsed_model-Conforms completion valid h = of_choices completion.choices h
    where
      of_choices :
          (choices : List (Message sdk.Parsed))
          → ◌≡◌ {A = Option sdk.Parsed}
              (elim choices [
                | [] ↦ none
                | message ∷ messages ↦ of_message sdk response_format message
              ])
              (some valid)
          → Conforms valid
      of_choices [] e = cc
      of_choices (message ∷ messages) e = of_message-Conforms message valid e

  accept_repaired-Conforms :
      (repaired : Completion sdk.Parsed) (l : L) (valid : sdk.Parsed) (usage : Option Usage)
      → (accept_repaired sdk response_format repaired l).0 ≡ ok (valid, usage)
      → Conforms valid
  unfolding accept_repaired
  accept_repaired-Conforms repaired l valid usage h =
      ground (arith, parsed_model-Conforms repaired valid)

  accept_or_repair-Conforms :
      (model : String) (messages : List ChatMessage) (completion : Completion sdk.Parsed) (l : L)
      (valid : sdk.Parsed) (usage : Option Usage)
      → (accept_or_repair sdk model messages response_format completion l).0 ≡ ok (valid, usage)
      → Conforms valid
  unfolding accept_or_repair
  accept_or_repair-Conforms model messages completion l valid usage h =
      elim (Option-cases (parsed_model sdk completion response_format)) [
        | inr (parsed, found) ↦
            let same : ok (parsed, completion.usage) ≡ ok (valid, usage) =
              rw (accept_or_repair, found) at h in
            subst Conforms (ap (λ (r : sdk.Parsed × Option Usage). r.0) (ok-injective same))
              (parsed_model-Conforms completion parsed found)
        | inl absent ↦
            let again : ((complete sdk model (repair_messages sdk messages completion)
                      response_format
                    >>= accept_repaired sdk response_format)
                  l).0
                ≡ ok (valid, usage) =
              rw (accept_or_repair, absent) at h in
            let (repaired, _, rest, _) =
              >>=-ok (complete sdk model (repair_messages sdk messages completion) response_format)
                (accept_repaired sdk response_format) l again in
            accept_repaired-Conforms repaired
              (complete sdk model (repair_messages sdk messages completion) response_format l).1
              valid usage rest
      ]

  pub parse-Conforms :
      (model : String) (messages : List ChatMessage) (l : L) (valid : sdk.Parsed)
      (usage : Option Usage)
      → (parse sdk model messages response_format l).0 ≡ ok (valid, usage)
      → Conforms valid
  unfolding parse
  parse-Conforms model messages l valid usage h =
      let (completion, _, rest, _) =
        >>=-ok (complete sdk model messages response_format)
          (accept_or_repair sdk model messages response_format) l h in
      accept_or_repair-Conforms model messages completion
        (complete sdk model messages response_format l).1 valid usage rest

  complete-calls :
      (model : String) (messages : List ChatMessage) (l : L)
      → laws.calls (complete sdk model messages response_format l).1 ≡ suc (laws.calls l)
  unfolding complete
  complete-calls model messages l = ground (arith, laws.counted model messages response_format l)

  accept_repaired-calls :
      (repaired : Completion sdk.Parsed) (l : L)
      → (accept_repaired sdk response_format repaired l).1 ≡ l
  unfolding accept_repaired
  accept_repaired-calls repaired l = ground arith

  -- At most so many calls from one state to another, and none taken back.
  abbrev Within : ℕ → L → L → Type 0
  Within n l l' = (laws.calls l ≤ laws.calls l') × (laws.calls l' ≤ laws.calls l + n)

  continue-Within :
      {A B : Type 0} (f : A → L → Outcome B × L) (n : ℕ) (r : Outcome A) (l : L)
      → ((a : A) → Within n l (f a l).1)
      → Within n l (continue r f l).1
  continue-Within f n (ok a) l h = h a
  continue-Within f n (raised e) l h = (omega arith, omega arith)

  accept_or_repair-Within :
      (model : String) (messages : List ChatMessage) (completion : Completion sdk.Parsed) (l : L)
      → Within 1 l (accept_or_repair sdk model messages response_format completion l).1
  unfolding accept_or_repair
  accept_or_repair-Within model messages completion l =
      elim (Option-cases (parsed_model sdk completion response_format)) [
        | inr (parsed, found) ↦ rw (accept_or_repair, found) (omega arith, omega arith)
        | inl absent ↦
            let second =
              complete sdk model (repair_messages sdk messages completion) response_format in
            let v = (second l).1 in
            let made = complete-calls model (repair_messages sdk messages completion) l in
            let (above, below) =
              continue-Within (accept_repaired sdk response_format) 0 (second l).0 v
                (λ repaired. rw (accept_repaired-calls repaired v) (omega arith, omega arith)) in
            rw (accept_or_repair, absent) (omega (arith, made, above), omega (arith, made, below))
      ]

  -- `_parse` asks the model once or twice, whether it returns or raises, and whatever the model
  -- answers.
  pub parse-calls :
      (model : String) (messages : List ChatMessage) (l : L)
      → (laws.calls l < laws.calls (parse sdk model messages response_format l).1)
        × (laws.calls (parse sdk model messages response_format l).1 ≤ laws.calls l + 2)
  unfolding parse
  parse-calls model messages l =
      let first = complete sdk model messages response_format in
      let v = (first l).1 in
      let made = complete-calls model messages l in
      let (above, below) =
        continue-Within (accept_or_repair sdk model messages response_format) 1 (first l).0 v
          (λ completion. accept_or_repair-Within model messages completion v) in
      (omega (arith, made, above), omega (arith, made, below))

module _ {L : Type 0} (sdk : Sdk L) (laws : SdkLaws sdk) where
  abbrev made : String → DocumentType → sdk.Parsed × Option Usage → ExtractionOutput
  made model document_type r = record {
    document_type = document_type;
    data_payload = sdk.model_dump r.0;
    model_provider = "openai";
    model_name = model;
    prompt_version = prompt_version;
    input_tokens = usage_input r.1;
    output_tokens = usage_output r.1;
    confidence_score = payload_confidence (sdk.model_dump r.0);
  }

  pub record IsExtraction (model : String) (document_type : DocumentType)
      (output : ExtractionOutput) : Type 0 where
    pub parsed : sdk.Parsed
    pub conforms : Conforms sdk laws (schema_registry document_type) parsed
    pub typed : output.document_type ≡ document_type
    pub dumped : output.data_payload ≡ sdk.model_dump parsed
    pub scored : output.confidence_score ≡ payload_confidence (sdk.model_dump parsed)
    pub provided : output.model_provider ≡ "openai"
    pub named : output.model_name ≡ model
    pub versioned : output.prompt_version ≡ prompt_version

  -- If `extract` returns, its record is of the type that was asked for and names this provider,
  -- the model and the version of the prompts; its data are the dump of an object that conforms to
  -- the schema of that type, and its confidence is the number that the data hold under that name.
  pub extract-Conforms :
      (model text : String) (document_type : DocumentType) (output : ExtractionOutput) (l : L)
      → (extract sdk model text document_type l).0 ≡ ok output
      → IsExtraction model document_type output
  unfolding extract
  extract-Conforms model text document_type output l h =
      let asked =
        parse sdk model (extraction_messages text document_type) (schema_registry document_type) in
      let ((parsed, usage), found, rest, _) =
        >>=-ok asked (λ (r : sdk.Parsed × Option Usage). pure (made model document_type r)) l h in
      let same : made model document_type (parsed, usage) ≡ output = ok-injective rest in
      let conforms =
        parse-Conforms sdk laws (schema_registry document_type) model
          (extraction_messages text document_type) l parsed usage found in
      subst (IsExtraction model document_type) same record {
        parsed = parsed;
        conforms = conforms;
        typed = refl;
        dumped = refl;
        scored = refl;
        provided = refl;
        named = refl;
        versioned = refl;
      }
