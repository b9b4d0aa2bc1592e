-- ===== src/Llm/Prompts.antt =====
-- app/llm/prompts.py
use async_ai_document_pipeli.Prelude.{List, [], ◌∷◌, String, ◌⊕◌}
use async_ai_document_pipeli.Core.Enums.{
  DocumentType, invoice, resume, support_ticket, generic, type_value,
}

abbrev pub prompt_version : String
prompt_version = "v1"

-- A message of a chat: its role and its content.
pub record ChatMessage : Type 0 where
  pub role : String
  pub content : String

unfoldable pub extract_system : String
extract_system =
    "You extract structured data from documents.\n\nRules:\n"
    ⊕ ("- Extract only facts the document supports.\n"
        ⊕ ("- Return null for any field that is absent or unclear. Never invent values.\n"
            ⊕ ("- Return every field in the schema; use null rather than omitting a key.\n"
                ⊕ ("- confidence_score is your self-reported confidence on a 0 to 1 scale. It is a "
                    ⊕ "hint, not a calibrated probability.\n"))))

unfoldable pub classify_system : String
classify_system =
    "You classify a document into exactly one of these types: invoice, resume, "
    ⊕ ("support_ticket, generic.\n\nRules:\n"
        ⊕ ("- Choose the single best match from the document content.\n"
            ⊕ ("- Use generic when none of the other types clearly apply.\n"
                ⊕ "- confidence_score is your self-reported confidence on a 0 to 1 scale.\n")))

unfoldable pub type_hint : DocumentType → String
type_hint invoice = "This document is an invoice. Extract vendor, amounts, dates and line items."
type_hint resume =
    "This document is a resume or CV. Extract the candidate, skills, education and experience."
type_hint support_ticket =
    "This document is a support ticket. Extract the subject, customer, "
    ⊕ "priority, sentiment and requested action."
type_hint generic =
    "Extract a title, short summary, key entities, important dates and action items."

unfoldable pub classification_messages : String → List ChatMessage
classification_messages text =
    record { role = "system"; content = classify_system }
    ∷ record {
      role = "user";
      content = "Classify the following document.\n\n---\n" ⊕ (text ⊕ "\n---");
    }
    ∷ []

unfoldable pub extraction_messages : String → DocumentType → List ChatMessage
extraction_messages text document_type =
    record { role = "system"; content = extract_system }
    ∷ record {
      role = "user";
      content =
          type_hint document_type
          ⊕ ("\n\nDocument type: " ⊕ (type_value document_type ⊕ ("\n\n---\n" ⊕ (text ⊕ "\n---"))));
    }
    ∷ []

unfoldable pub repair_user_message : String
repair_user_message =
    "Your previous response did not satisfy the schema. Return a corrected "
    ⊕ ("JSON object that matches the schema exactly. Use null for missing "
        ⊕ "fields. Do not invent values.")
