-- ===== src/Services/FileValidation.antt =====
-- app/services/file_validation.py: the checks of an upload whose name is sanitized. What `details` adds to
-- an exception is left out.
pub mod Accepted
pub mod Filename
pub mod Upload
use async_ai_document_pipeli.Prelude.{
  ℕ, ◌*◌, Bool, true, false, ◌&&◌, ◌||◌, Option, none, some, List, [], ◌∷◌, String, str_eq, ◌==◌,
  ltb, leb, elem, if◌then◌else◌, ◌⊕◌, is_empty, length, split_on,
}
use async_ai_document_pipeli.Core.Errors.{file_too_large, unsupported_file_type, app_exn}
use async_ai_document_pipeli.Core.Exec.{Outcome, ok, raised}
use async_ai_document_pipeli.Core.Paths.{suffix}
use async_ai_document_pipeli.Core.Settings.{Settings}
use async_ai_document_pipeli.Platform.{Bytes, Parsers, Floats}
use async_ai_document_pipeli.Services.TextExtraction.{strip}

-- `EXTENSION_CONTENT_TYPES.get(extension, frozenset())`
abbrev pub extension_content_types : String → List String
extension_content_types extension =
    if str_eq extension ".pdf"
    then "application/pdf" ∷ "application/x-pdf" ∷ []
    else if str_eq extension ".txt"
    then "text/plain" ∷ "text/x-log" ∷ "text/markdown" ∷ []
    else if str_eq extension ".docx"
    then "application/vnd.openxmlformats-officedocument.wordprocessingml.document"
      ∷ "application/zip" ∷ []
    else []

abbrev pub generic_content_types : List String
generic_content_types = "application/octet-stream" ∷ "" ∷ []

-- `MAGIC_PREFIXES.get(extension)`, each of whose values is one prefix: "%PDF-" and "PK", 3, 4.
abbrev pub magic_prefix : String → Option Bytes
magic_prefix extension =
    if str_eq extension ".pdf"
    then some (0x25 ∷ 0x50 ∷ 0x44 ∷ 0x46 ∷ 0x2D ∷ [])
    else if str_eq extension ".docx"
    then some (0x50 ∷ 0x4B ∷ 3 ∷ 4 ∷ [])
    else none

-- `data.startswith(prefix)`
unfoldable pub starts_with : Bytes → Bytes → Bool
starts_with [] bytes = true
starts_with (x ∷ xs) [] = false
starts_with (x ∷ xs) (b ∷ bytes) = x == b && starts_with xs bytes

-- The text before the first semicolon.
abbrev first_part : List String → String
first_part [] = ""
first_part (part ∷ parts) = part

module _ (parsers : Parsers) where
  unfoldable pub extract_extension : String → String
  extract_extension filename = parsers.lower (suffix filename)

  unfoldable pub validate_extension : {F : Type 0} → Settings F → String → Outcome String
  validate_extension settings filename =
      let extension = extract_extension filename in
      if is_empty extension
      then raised (app_exn unsupported_file_type "The uploaded file has no extension.")
      else if elem str_eq extension settings.allowed_extensions
      then ok extension
      else raised
          (app_exn unsupported_file_type ("Files of type " ⊕ extension ⊕ " are not supported."))

  -- `(content_type or "").split(";", 1)[0].strip().lower()`
  unfoldable pub declared_type : Option String → String
  declared_type none = parsers.lower (strip "")
  declared_type (some content_type) =
      parsers.lower (strip (first_part (split_on 0x3B content_type)))

  unfoldable pub validate_content_type : String → Option String → Outcome (Unit {0})
  validate_content_type extension content_type =
      let declared = declared_type content_type in
      if elem str_eq declared generic_content_types
      then ok tt
      else if elem str_eq declared (extension_content_types extension)
      then ok tt
      else raised (
          app_exn unsupported_file_type (
            "Content type "
            ⊕ parsers.repr declared
            ⊕ " does not match the "
            ⊕ extension
            ⊕ " extension."))

  -- The decode of a text file.
  abbrev pub is_utf8 : Bytes → Bool
  is_utf8 bytes = elim (parsers.decode "utf-8" bytes) [ none ↦ false | some text ↦ true ]

  -- Whether the content begins as its format does, where the format has a signature.
  abbrev pub has_magic : String → Bytes → Bool
  has_magic extension bytes = elim (magic_prefix extension) [
    | none ↦ true
    | some magic ↦ starts_with magic bytes
  ]

  unfoldable pub validate_magic_bytes : String → Bytes → Outcome (Unit {0})
  validate_magic_bytes extension bytes =
      if str_eq extension ".txt"
      then (if is_utf8 bytes
          then ok tt
          else raised (app_exn unsupported_file_type "The .txt file is not valid UTF-8 text."))
      else if has_magic extension bytes
      then ok tt
      else raised (
          app_exn unsupported_file_type
            ("The file content does not look like a valid " ⊕ extension ⊕ " file."))

abbrev pub megabyte : ℕ
megabyte = 1048576

module _ {F : Type 0} (float : Floats F) (settings : Settings F) where
  -- The message of `FileTooLargeError`, with `Settings.max_upload_mb`.
  abbrev pub too_large : String
  too_large =
      "The file exceeds the " ⊕ float.show_ratio settings.max_upload_bytes megabyte ⊕ " MB limit."

  unfoldable pub validate_size : ℕ → Outcome (Unit {0})
  validate_size size =
      if leb size 0
      then raised (app_exn unsupported_file_type "The uploaded file is empty.")
      else if ltb settings.max_upload_bytes size
      then raised (app_exn file_too_large too_large)
      else ok tt

abbrev pub then_check : {A B : Type 0} → Outcome A → (A → Outcome B) → Outcome B
then_check (ok a) f = f a
then_check (raised e) f = raised e

-- `validate_upload` after the name is sanitized: the checks in their order.
unfoldable pub validate_sanitized :
    {F : Type 0} → Parsers → Floats F → Settings F → String → Option String → Bytes → Outcome String
validate_sanitized parsers float settings safe_name content_type bytes =
    then_check (validate_extension parsers settings safe_name) (λ extension.
      then_check (validate_content_type parsers extension content_type) (λ _.
        then_check (validate_size float settings (length bytes))
          (λ _. then_check (validate_magic_bytes parsers extension bytes) (λ _. ok extension))))
