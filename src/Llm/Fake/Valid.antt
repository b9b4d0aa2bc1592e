-- ===== src/Llm/Fake/Valid.antt =====
-- The payloads of `FakeLLMProvider`, app/llm/base.py, conform to the schemas that the other provider uses.
use async_ai_document_pipeli.Prelude.{
  ℕ, ◌+◌, ◌≡◌, refl, subst, true, Option, none, some, String, len, after,
}
use async_ai_document_pipeli.Core.Enums.{DocumentType, invoice, resume, support_ticket, generic}
use async_ai_document_pipeli.Core.Exec.{Outcome, ok, raised}
use async_ai_document_pipeli.Core.Exec.Inversion.{ok-injective}
use async_ai_document_pipeli.Db.Models.{Json}
use async_ai_document_pipeli.Platform.{Parsers}
use async_ai_document_pipeli.Schemas.Extraction.{schema_of, is_of, conforms_fields}
use async_ai_document_pipeli.Llm.Fake.Payload.{
  find, first_line, index_error, fake_payload, invoice_payload, resume_payload, ticket_payload,
  generic_payload, text_or_null, snippet, find_after, with_vendor,
}

invoice_payload-valid :
    (vendor : Option String) → is_of (schema_of invoice) (invoice_payload vendor) ≡ true
unfolding schema_of invoice_payload conforms_fields
invoice_payload-valid none = refl
invoice_payload-valid (some name) = refl

resume_payload-valid :
    (s : Option String) → is_of (schema_of resume) (resume_payload (text_or_null s)) ≡ true
unfolding schema_of resume_payload conforms_fields
resume_payload-valid none = refl
resume_payload-valid (some summary) = refl

ticket_payload-valid :
    (s : Option String) → is_of (schema_of support_ticket) (ticket_payload (text_or_null s)) ≡ true
unfolding schema_of ticket_payload conforms_fields
ticket_payload-valid none = refl
ticket_payload-valid (some summary) = refl

generic_payload-valid :
    (s : Option String) → is_of (schema_of generic) (generic_payload (text_or_null s)) ≡ true
unfolding schema_of generic_payload conforms_fields
generic_payload-valid none = refl
generic_payload-valid (some title) = refl

with_vendor-valid :
    (found : Outcome (Option String)) (payload : Json)
    → with_vendor found ≡ ok payload
    → is_of (schema_of invoice) payload ≡ true
with_vendor-valid (raised e) payload h = cc
with_vendor-valid (ok vendor) payload h =
    subst (λ j. is_of (schema_of invoice) j ≡ true) (ok-injective h) (invoice_payload-valid vendor)

-- For every text and every type, a payload that `_fake_payload` returns is an object with the
-- fields of the schema of that type, each with a value of its type, so that its validation
-- succeeds.
pub fake_payload-valid :
    (parsers : Parsers) (document_type : DocumentType) (s : String) (payload : Json)
    → fake_payload parsers document_type s ≡ ok payload
    → is_of (schema_of document_type) payload ≡ true
unfolding fake_payload
fake_payload-valid parsers invoice s payload h =
    with_vendor-valid (find_after parsers s "vendor:") payload h
fake_payload-valid parsers resume s payload h =
    subst (λ j. is_of (schema_of resume) j ≡ true) (ok-injective h)
      (resume_payload-valid (snippet s))
fake_payload-valid parsers support_ticket s payload h =
    subst (λ j. is_of (schema_of support_ticket) j ≡ true) (ok-injective h)
      (ticket_payload-valid (snippet s))
fake_payload-valid parsers generic s payload h =
    subst (λ j. is_of (schema_of generic) j ≡ true) (ok-injective h)
      (generic_payload-valid (snippet s))

after_all : (s : String) → after (len s) s ≡ ""
after_all String.[] = refl
after_all (String.◌∷◌ c s) = after_all s

-- Where the first occurrence of a marker ends the text, `_find_after` raises `IndexError`, since
-- a remainder that is empty has no first line.
pub find_after-raises :
    (parsers : Parsers) (s marker : String) (index : ℕ)
    → find (parsers.lower marker) (parsers.lower s) ≡ some index
    → len s ≡ index + len marker
    → find_after parsers s marker ≡ raised index_error
unfolding find_after first_line
find_after-raises parsers s marker index found ends =
    let nothing_left : after (index + len marker) s ≡ "" =
      subst (λ n. after n s ≡ "") ends (after_all s) in
    rw (found, find_after, nothing_left) refl
