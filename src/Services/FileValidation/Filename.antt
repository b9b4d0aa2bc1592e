-- ===== src/Services/FileValidation/Filename.antt =====
-- `sanitize_filename` of app/services/file_validation.py.
pub mod Safe
use async_ai_document_pipeli.Prelude.{
  ℕ, ◌+◌, ◌-◌, Bool, true, false, ◌&&◌, ◌||◌, Option, none, some, String, code, ◌==◌, ltb, leb,
  if◌then◌else◌, ◌⊕◌, len, prefix, is_empty, split_on, strip_where, after, str_eq,
}
use async_ai_document_pipeli.Core.Paths.{path_name, last_dot, last_component}
use async_ai_document_pipeli.Platform.{Parsers}

abbrev pub max_filename_length : ℕ
max_filename_length = 200

abbrev pub fallback_filename : String
fallback_filename = "document"

abbrev pub backslash : ℕ
backslash = 0x5C

-- What follows the first backslash of a text.
after_backslash : String → Option String
after_backslash String.[] = none
after_backslash (String.◌∷◌ c s) = elim (code c == backslash) [
  | true ↦ some s
  | false ↦ after_backslash s
]

-- What follows the share of `\\server\share`, from the server on.
after_share : String → String
unfolding after_backslash
after_share s = elim (after_backslash s) [
  | none ↦ ""
  | some share ↦ elim (after_backslash share) [ none ↦ "" | some rest ↦ rest ]
]

abbrev is_letter : ℕ → Bool
is_letter c = (leb b'A' c && leb c b'Z') || (leb b'a' c && leb c b'z')

-- Equality with a letter, upper case or lower.
abbrev is_either : ℕ → ℕ → Bool
is_either upper c = c == upper || c == upper + 32

-- `p[:8].upper() == "\\\\?\\UNC\\"`
is_unc_prefix : String → Bool
is_unc_prefix
      (String.◌∷◌ a (
        String.◌∷◌ b (
          String.◌∷◌ c
            (String.◌∷◌ d (String.◌∷◌ e (String.◌∷◌ f (String.◌∷◌ g (String.◌∷◌ h s)))))))) =
    code a == backslash
    && code b == backslash
    && code c == b'?'
    && code d == backslash
    && is_either b'U' (code e)
    && is_either b'N' (code f)
    && is_either b'C' (code g)
    && code h == backslash
is_unc_prefix _ = false

-- The part of a Windows path without forward slashes that follows its drive and its root, as
-- `ntpath.splitroot` has it.
unfoldable pub windows_tail : String → String
unfolding after_share is_unc_prefix
windows_tail String.[] = ""
windows_tail (String.◌∷◌ a String.[]) = if code a == backslash then "" else String.◌∷◌ a String.[]
windows_tail (String.◌∷◌ a (String.◌∷◌ b s)) =
    let path = String.◌∷◌ a (String.◌∷◌ b s) in
    if code a == backslash
    then (if code b == backslash
        then after_share (after (if is_unc_prefix path then 8 else 2) path)
        else String.◌∷◌ b s)
    else if code b == b':'
    then elim s [
      | String.[] ↦ ""
      | String.◌∷◌ c r ↦ if code c == backslash then r else String.◌∷◌ c r
    ]
    else path

-- `PureWindowsPath(path).name`, of a path without forward slashes.
unfoldable pub windows_name : String → String
unfolding windows_tail split_on
windows_name path = last_component "" (split_on backslash (windows_tail path))

-- The characters that `_UNSAFE_CHARS` leaves.
abbrev pub is_safe : ℕ → Bool
is_safe c =
    is_letter c || (leb b'0' c && leb c b'9') || c == b'.' || c == b'_' || c == b' ' || c == b'-'

-- `_UNSAFE_CHARS.sub("_", name)`
unfoldable pub replace_unsafe : String → String
replace_unsafe String.[] = String.[]
replace_unsafe (String.◌∷◌ c s) =
    if is_safe (code c) then String.◌∷◌ c (replace_unsafe s) else String.◌∷◌ "_" (replace_unsafe s)

abbrev pub is_separator : ℕ → Bool
is_separator c = c == b'-' || c == b'_' || c == b' '

-- Where `_REPEATED_SEPARATORS` stands: outside of a run, after one separator, or after more.
pub data Run : Type 0 where
  outside : Run
  one : String → Run
  many : Run

-- `_REPEATED_SEPARATORS.sub("_", name)`; a run that is over is written before what follows it.
unfoldable pub squeeze : Run → String → String
squeeze outside String.[] = String.[]
squeeze (one separator) String.[] = separator
squeeze many String.[] = "_"
squeeze outside (String.◌∷◌ c s) = elim (is_separator (code c)) [
  | true ↦ squeeze (one (String.◌∷◌ c String.[])) s
  | false ↦ String.◌∷◌ c (squeeze outside s)
]
squeeze (one separator) (String.◌∷◌ c s) = elim (is_separator (code c)) [
  | true ↦ squeeze many s
  | false ↦ separator ⊕ String.◌∷◌ c (squeeze outside s)
]
squeeze many (String.◌∷◌ c s) = elim (is_separator (code c)) [
  | true ↦ squeeze many s
  | false ↦ String.◌∷◌ "_" (String.◌∷◌ c (squeeze outside s))
]

-- `.strip(" ._")`
abbrev pub is_edge : ℕ → Bool
is_edge c = c == b' ' || c == b'.' || c == b'_'

-- A name that is too long is cut, before its extension if that is short. `extension` begins with
-- the dot that `rpartition` takes out and the source puts back.
unfoldable pub shorten : String → String
unfolding last_dot
shorten name = elim (last_dot name) [
  | none ↦ prefix max_filename_length name
  | some (stem, extension) ↦
      if is_empty stem || ltb 11 (len extension)
      then prefix max_filename_length name
      else prefix (max_filename_length - len extension) stem ⊕ extension
]

-- The name of a file once its characters are safe.
unfoldable pub finish : String → String
unfolding shorten
finish name =
    if is_empty name
    then fallback_filename
    else if ltb max_filename_length (len name)
    then shorten name
    else name

unfoldable pub sanitize_filename : Parsers → Option String → String
unfolding path_name windows_name replace_unsafe strip_where squeeze finish
sanitize_filename parsers none = fallback_filename
sanitize_filename parsers (some filename) =
    if is_empty filename
    then fallback_filename
    else finish (
        squeeze outside (
          strip_where is_edge
            (replace_unsafe (parsers.ascii_fold (windows_name (path_name filename))))))
