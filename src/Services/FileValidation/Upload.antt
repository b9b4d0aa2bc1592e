-- ===== src/Services/FileValidation/Upload.antt =====
-- `validate_upload` of app/services/file_validation.py, and what it lets through.
use async_ai_document_pipeli.Prelude.{
  subst, ◌≤◌, ◌<◌, ◌≡◌, true, Option, String, str_eq, elem, length,
}
use async_ai_document_pipeli.Core.Exec.{Outcome, ok}
use async_ai_document_pipeli.Core.Exec.Inversion.{ok-injective}
use async_ai_document_pipeli.Core.Settings.{Settings}
use async_ai_document_pipeli.Platform.{Bytes, Parsers, Floats}
use async_ai_document_pipeli.Services.FileValidation.{
  validate_sanitized, extract_extension, then_check,
}
use async_ai_document_pipeli.Services.FileValidation.Accepted.{
  validate_sanitized-ok, then_check-ok, IsDeclared, IsGenuine,
}
use async_ai_document_pipeli.Services.FileValidation.Filename.{sanitize_filename}
use async_ai_document_pipeli.Services.FileValidation.Filename.Safe.{
  Sanitized, sanitize_filename-Sanitized,
}

module _ (parsers : Parsers) {F : Type 0} (float : Floats F) (settings : Settings F) where
  unfoldable pub validate_upload : Option String → Option String → Bytes → Outcome (String × String)
  validate_upload filename content_type bytes =
      let safe_name = sanitize_filename parsers filename in
      then_check (validate_sanitized parsers float settings safe_name content_type bytes)
        (λ extension. ok (safe_name, extension))

  -- What is known of a name, an extension and a content that were accepted.
  pub record IsAccepted (name extension : String) (content_type : Option String) (bytes : Bytes)
      : Type 0 where
    pub sanitized : Sanitized name
    pub is_extension : extension ≡ extract_extension parsers name
    pub allowed : elem str_eq extension settings.allowed_extensions ≡ true
    pub declared : IsDeclared parsers float settings extension content_type
    pub filled : 0 < length bytes
    pub fits : length bytes ≤ settings.max_upload_bytes
    pub genuine : IsGenuine parsers float settings extension bytes

  -- If `validate_upload` returns a name and an extension, the name is not empty, has at most 200
  -- characters and holds only characters that are safe to store and to display; the extension is
  -- the lower-cased one of the name and an allowed one; the declared content type is generic or
  -- goes with it; the content is not empty and within the limit; and it is UTF-8 for a text file
  -- and begins with the signature of its format for another.
  pub validate_upload-IsAccepted :
      (filename : Option String) (content_type : Option String) (bytes : Bytes)
      (name extension : String)
      → validate_upload filename content_type bytes ≡ ok (name, extension)
      → IsAccepted name extension content_type bytes
  unfolding validate_upload
  validate_upload-IsAccepted filename content_type bytes name extension h =
      let safe_name = sanitize_filename parsers filename in
      let (found, checked, same) =
        then_check-ok (validate_sanitized parsers float settings safe_name content_type bytes) _
          h in
      let (e, a, d, f, s, g) =
        validate_sanitized-ok parsers float settings safe_name found content_type bytes checked in
      let accepted : IsAccepted safe_name found content_type bytes = record {
        sanitized = sanitize_filename-Sanitized parsers filename;
        is_extension = e;
        allowed = a;
        declared = d;
        filled = f;
        fits = s;
        genuine = g;
      } in
      subst (λ (r : String × String). IsAccepted r.0 r.1 content_type bytes) (ok-injective same)
        accepted
