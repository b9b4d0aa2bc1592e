-- ===== src/Services/FileValidation/Accepted.antt =====
-- What app/services/file_validation.py lets through.
use async_ai_document_pipeli.Prelude.{
  ℕ, refl, subst, ◌≤◌, ◌<◌, ◌≡◌, ◌⊎◌, true, false, Option, String, str_eq, elem, length, arith,
}
use async_ai_document_pipeli.Core.Exec.{Outcome, ok}
use async_ai_document_pipeli.Core.Exec.Inversion.{ok-injective}
use async_ai_document_pipeli.Core.Settings.{Settings}
use async_ai_document_pipeli.Platform.{Bytes, Parsers, Floats}
use async_ai_document_pipeli.Services.FileValidation.{
  validate_sanitized, validate_extension, validate_content_type, validate_size,
  validate_magic_bytes, declared_type, generic_content_types, extension_content_types,
  extract_extension, is_utf8, has_magic, then_check,
}

pub then_check-ok :
    {A B : Type 0} (r : Outcome A) (f : A → Outcome B) {b : B}
    → then_check r f ≡ ok b
    → (a : A) × (r ≡ ok a) × (f a ≡ ok b)
then_check-ok (Outcome.ok a) f h = (a, refl, h)
then_check-ok (Outcome.raised e) f h = cc

module _ (parsers : Parsers) {F : Type 0} (float : Floats F) (settings : Settings F) where
  -- Whether a declared content type goes with an extension.
  abbrev pub IsDeclared : String → Option String → Type 0
  IsDeclared extension content_type =
      (elem str_eq (declared_type parsers content_type) generic_content_types ≡ true)
      ⊎ (elem str_eq (declared_type parsers content_type) (extension_content_types extension)
          ≡ true)

  -- Whether the content is what the extension says.
  abbrev pub IsGenuine : String → Bytes → Type 0
  IsGenuine extension bytes =
      (str_eq extension ".txt" ≡ true) × (is_utf8 parsers bytes ≡ true)
      ⊎ (str_eq extension ".txt" ≡ false) × (has_magic parsers extension bytes ≡ true)

  extension-ok :
      (name : String) {extension : String}
      → validate_extension parsers settings name ≡ ok extension
      → (extension ≡ extract_extension parsers name)
        × (elem str_eq extension settings.allowed_extensions ≡ true)
  unfolding validate_extension
  extension-ok name h = ground arith

  content_type-ok :
      (extension : String) (content_type : Option String) {done : Unit {0}}
      → validate_content_type parsers extension content_type ≡ ok done
      → IsDeclared extension content_type
  unfolding validate_content_type
  content_type-ok extension content_type h = ground arith

  size-ok :
      (size : ℕ) {done : Unit {0}}
      → validate_size float settings size ≡ ok done
      → (0 < size) × (size ≤ settings.max_upload_bytes)
  unfolding validate_size
  size-ok size h = ground arith

  magic-ok :
      (extension : String) (bytes : Bytes) {done : Unit {0}}
      → validate_magic_bytes parsers extension bytes ≡ ok done
      → IsGenuine extension bytes
  unfolding validate_magic_bytes
  magic-ok extension bytes h = ground arith

  -- If the checks of an upload with a sanitized name return an extension, it is the lower-cased
  -- extension of the name and an allowed one, the declared content type is generic or goes with
  -- it, the content is not empty and within the limit, and the content is UTF-8 for a text file
  -- and begins with the signature of its format for another.
  pub validate_sanitized-ok :
      (name extension : String) (content_type : Option String) (bytes : Bytes)
      → validate_sanitized parsers float settings name content_type bytes ≡ ok extension
      → (extension ≡ extract_extension parsers name)
        × (elem str_eq extension settings.allowed_extensions ≡ true)
        × IsDeclared extension content_type
        × (0 < length bytes)
        × (length bytes ≤ settings.max_upload_bytes)
        × IsGenuine extension bytes
  unfolding validate_sanitized
  validate_sanitized-ok name extension content_type bytes h =
      let (found, named, rest) = then_check-ok (validate_extension parsers settings name) _ h in
      let (_, declared, rest') =
        then_check-ok (validate_content_type parsers found content_type) _ rest in
      let (_, sized, rest'') =
        then_check-ok (validate_size float settings (length bytes)) _ rest' in
      let (_, genuine, same) = then_check-ok (validate_magic_bytes parsers found bytes) _ rest'' in
      let (is, allowed) = extension-ok name named in
      let (some_bytes, fits) = size-ok (length bytes) sized in
      subst
        (λ e.
          (e ≡ extract_extension parsers name)
          × (elem str_eq e settings.allowed_extensions ≡ true)
          × IsDeclared e content_type
          × (0 < length bytes)
          × (length bytes ≤ settings.max_upload_bytes)
          × IsGenuine e bytes)
        (ok-injective same)
        (
          is,
          allowed,
          content_type-ok found content_type declared,
          some_bytes,
          fits,
          magic-ok found bytes genuine,
        )
