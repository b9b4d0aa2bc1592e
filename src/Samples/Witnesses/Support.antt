-- ===== src/Samples/Witnesses/Support.antt =====
-- The theorems on storage, configuration, logging and the providers, at concrete inputs.
use async_ai_document_pipeli.Prelude.{
  ℕ, ◌+◌, ◌≡◌, refl, ◌⊎◌, ◌≤◌, ◌<◌, true, false, some, [], ◌∷◌, String, length, contains,
}
use async_ai_document_pipeli.Core.Config.{mask_url_password}
use async_ai_document_pipeli.Core.Config.Masked.{mask_url_password-hides}
use async_ai_document_pipeli.Core.Enums.{generic}
use async_ai_document_pipeli.Core.Exec.{ok}
use async_ai_document_pipeli.Core.Logging.{LogFields, LogValue, redact_sensitive, is_sensitive}
use async_ai_document_pipeli.Core.Logging.Redacted.{
  redact_sensitive-Masked, redact_sensitive-shallow, Masked, Kept,
}
use async_ai_document_pipeli.Db.Models.{null}
use async_ai_document_pipeli.Llm.Fake.Payload.{
  fake_payload, generic_payload, snippet, find_after, find, index_error,
}
use async_ai_document_pipeli.Llm.Fake.Valid.{fake_payload-valid, find_after-raises}
use async_ai_document_pipeli.Llm.OpenAi.{parse}
use async_ai_document_pipeli.Llm.OpenAi.Client.{invoice_extraction}
use async_ai_document_pipeli.Llm.OpenAi.Conforming.{parse-calls, extract-Conforms, IsExtraction}
use async_ai_document_pipeli.Schemas.Extraction.{schema_of, is_of}
use async_ai_document_pipeli.Services.FileStorage.{save, read}
use async_ai_document_pipeli.Services.FileStorage.Contained.{
  storage-contained, Below, Reached, Refused,
}
use async_ai_document_pipeli.Services.FileStorage.{delete, exists}
use async_ai_document_pipeli.Services.FileStorage.Restored.{save-read, delete-exists}
use async_ai_document_pipeli.Llm.Factory.{
  build_provider, fake_provider, openai_provider, HasKey, key_missing, build_provider-decided,
}
use async_ai_document_pipeli.Core.Enums.{LlmProviderName}
use async_ai_document_pipeli.Samples.Memory.{memory_settings}
use async_ai_document_pipeli.Samples.Storage.{saved_disk, deleted}
use async_ai_document_pipeli.Core.Exec.{raised}
use async_ai_document_pipeli.Samples.Memory.{memory, clock}
use async_ai_document_pipeli.Samples.Model.{
  counting_sdk, counting_laws, sample_extraction, extracted,
}
use async_ai_document_pipeli.Samples.Storage.{
  disk_in_memory, disk_in_memory_laws, plain_texts, root, empty_disk, saved_file, saved,
}

storage-contained_example :
    (Below root ("etc" ∷ [])
      × Reached disk_in_memory clock plain_texts root "up" ("etc" ∷ []) empty_disk)
    ⊎ ((¬ Below root ("etc" ∷ [])) × Refused disk_in_memory clock plain_texts root "up" empty_disk)
storage-contained_example =
    storage-contained disk_in_memory clock plain_texts root "up" ("etc" ∷ []) empty_disk refl

save-read_example :
    (saved_file.size ≡ length {A = ℕ} (104 ∷ []))
    × (saved_file.checksum ≡ plain_texts.sha256_hex (104 ∷ []))
    × (read disk_in_memory clock plain_texts root "2026/7.txt"
          (save disk_in_memory clock plain_texts root (104 ∷ []) ".txt" empty_disk).1
        ≡ (
          ok (104 ∷ []),
          (save disk_in_memory clock plain_texts root (104 ∷ []) ".txt" empty_disk).1,
        ))
save-read_example =
    save-read disk_in_memory clock plain_texts root disk_in_memory_laws (104 ∷ []) ".txt" empty_disk
      saved_file saved

mask_url_password-hides_example :
    mask_url_password "redis://u:s3:cret@h:6379" ≡ "redis://u:***@h:6379"
mask_url_password-hides_example =
    mask_url_password-hides "redis" "u" "s3:cret" "h:6379"
      (refl, (refl, (refl, (refl, (refl, tt))))) (refl, tt)
      (refl, (refl, (refl, (refl, (refl, (refl, tt))))))

abbrev identity : String → String
identity s = s

abbrev sample_fields : LogFields
sample_fields = LogFields.entry "token" (LogValue.text "t") LogFields.end

redact_sensitive-Masked_example :
    Masked identity (redact_sensitive identity sample_fields)
    × Kept identity sample_fields (redact_sensitive identity sample_fields)
redact_sensitive-Masked_example = redact_sensitive-Masked identity sample_fields

plain_a : is_sensitive identity "a" ≡ false
unfolding is_sensitive contains
plain_a = refl

plain_b : is_sensitive identity "b" ≡ false
unfolding is_sensitive contains
plain_b = refl

abbrev secrets : LogFields
secrets = LogFields.entry "password" (LogValue.text "p") LogFields.end

redact_sensitive-shallow_example :
    redact_sensitive identity (
      LogFields.entry "a"
        (LogValue.dict (LogFields.entry "b" (LogValue.dict secrets) LogFields.end))
        LogFields.end)
    ≡ LogFields.entry "a"
        (LogValue.dict (LogFields.entry "b" (LogValue.dict secrets) LogFields.end))
        (redact_sensitive identity LogFields.end)
redact_sensitive-shallow_example =
    redact_sensitive-shallow identity "a" "b" secrets LogFields.end plain_a plain_b

parse-calls_example :
    (counting_laws.calls 0 < counting_laws.calls (parse counting_sdk "m" [] invoice_extraction 0).1)
    × (counting_laws.calls (parse counting_sdk "m" [] invoice_extraction 0).1
        ≤ counting_laws.calls 0 + 2)
parse-calls_example = parse-calls counting_sdk counting_laws invoice_extraction "m" [] 0

extract-Conforms_example :
    IsExtraction counting_sdk counting_laws "gpt-4o-mini" generic sample_extraction
extract-Conforms_example =
    extract-Conforms counting_sdk counting_laws "gpt-4o-mini" "hello" generic sample_extraction 0
      extracted

empty_payload : fake_payload memory.parsers generic "" ≡ ok (generic_payload null)
unfolding fake_payload snippet
empty_payload = refl

fake_payload-valid_example : is_of (schema_of generic) (generic_payload null) ≡ true
fake_payload-valid_example =
    fake_payload-valid memory.parsers generic "" (generic_payload null) empty_payload

at_once : find (memory.parsers.lower "vendor:") (memory.parsers.lower "vendor:") ≡ some 0
unfolding memory find
at_once = refl

find_after-raises_example : find_after memory.parsers "vendor:" "vendor:" ≡ raised index_error
find_after-raises_example = find_after-raises memory.parsers "vendor:" "vendor:" 0 at_once refl

delete-exists_example :
    exists disk_in_memory clock plain_texts root "2026/7.txt"
      (delete disk_in_memory clock plain_texts root "2026/7.txt" saved_disk).1
    ≡ (ok false, (delete disk_in_memory clock plain_texts root "2026/7.txt" saved_disk).1)
delete-exists_example =
    delete-exists disk_in_memory clock plain_texts root disk_in_memory_laws "2026/7.txt" saved_disk
      tt deleted

build_provider-decided_example :
    ((memory_settings.llm_provider ≡ LlmProviderName.fake)
      × (build_provider memory_settings ≡ ok fake_provider))
    ⊎ ((memory_settings.llm_provider ≡ LlmProviderName.openai)
        × HasKey memory_settings
        × (build_provider memory_settings ≡ ok (openai_provider memory_settings.openai_model)))
    ⊎ ((memory_settings.llm_provider ≡ LlmProviderName.openai)
        × (¬ HasKey memory_settings)
        × (build_provider memory_settings ≡ raised key_missing))
build_provider-decided_example = build_provider-decided memory_settings
