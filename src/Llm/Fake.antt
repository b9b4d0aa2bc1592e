-- ===== src/Llm/Fake.antt =====
-- `FakeLLMProvider` of app/llm/base.py.
pub mod Payload
pub mod Valid
use async_ai_document_pipeli.Prelude.{
  ℕ, ◌+◌, ◌/◌, Bool, true, false, Option, none, some, List, [], ◌∷◌, String, contains, len,
  if◌then◌else◌,
}
use async_ai_document_pipeli.Core.Enums.{DocumentType, invoice, resume, support_ticket, generic}
use async_ai_document_pipeli.Core.Errors.{Exn}
use async_ai_document_pipeli.Core.Exec.{Outcome, ok, raised, Exec, pure, raise, ◌>>=◌, ◌>>◌}
use async_ai_document_pipeli.Db.Models.{Json, Decimal}
use async_ai_document_pipeli.Llm.Outputs.{ExtractionOutput, ClassificationOutput}
use async_ai_document_pipeli.Llm.OpenAi.{payload_confidence}
use async_ai_document_pipeli.Llm.Fake.Payload.{fake_payload}
use async_ai_document_pipeli.Platform.{Parsers, Provider}

-- The exceptions that wait to be raised, one per call, and the count of the calls.
pub record FakeState : Type 0 where
  pub failures : List Exn
  pub calls : ℕ

-- `_maybe_fail`
unfoldable pub maybe_fail : Exec FakeState (Unit {0})
maybe_fail s = elim s.failures [
  | [] ↦ (ok tt, record s { calls = s.calls + 1 })
  | e ∷ failures ↦ (raised e, record { failures = failures; calls = s.calls + 1 })
]

-- `any(hint in lowered for hint in hints)`
unfoldable pub any_in : List String → String → Bool
any_in [] lowered = false
any_in (hint ∷ hints) lowered = if contains hint lowered then true else any_in hints lowered

abbrev pub type_hints : List (DocumentType × List String)
type_hints =
    (invoice, "invoice" ∷ "vendor" ∷ "amount due" ∷ "subtotal" ∷ [])
    ∷ (resume, "resume" ∷ "curriculum vitae" ∷ "work experience" ∷ "education" ∷ [])
    ∷ (support_ticket, "ticket" ∷ "support request" ∷ "customer reported" ∷ [])
    ∷ []

unfoldable pub first_hinted : List (DocumentType × List String) → String → DocumentType
unfolding any_in
first_hinted [] lowered = generic
first_hinted ((document_type, hints) ∷ rest) lowered =
    if any_in hints lowered then document_type else first_hinted rest lowered

module _ (parsers : Parsers) where
  unfoldable pub guess_type : String → DocumentType
  unfolding first_hinted
  guess_type text = first_hinted type_hints (parsers.lower text)

  unfoldable pub classify : String → Exec FakeState ClassificationOutput
  unfolding maybe_fail guess_type
  classify text = do
    maybe_fail
    pure record {
      document_type = guess_type text;
      input_tokens = some (len text / 4);
      output_tokens = some 4;
      confidence_score = some (record { digits = 9; scale = 1 });
    }

  -- The payload is valid as `Valid` shows, so its validation changes only dates into texts, which the
  -- payload here holds already.
  unfoldable pub extract : String → DocumentType → Exec FakeState ExtractionOutput
  unfolding maybe_fail fake_payload payload_confidence
  extract text document_type = do
    maybe_fail
    payload ← (λ s. (fake_payload parsers document_type text, s))
    pure record {
      document_type = document_type;
      data_payload = payload;
      model_provider = "fake";
      model_name = "fake-extractor-1";
      prompt_version = "fake-v1";
      input_tokens = some (len text / 4);
      output_tokens = some 32;
      confidence_score = payload_confidence payload;
    }

  abbrev pub fake_llm_provider : Provider FakeState
  fake_llm_provider = record { classify = classify; extract = extract }
