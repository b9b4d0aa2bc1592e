-- ===== src/Core/Config.antt =====
-- app/core/config.py: the validators and the derived properties of `Settings`, apart from the settings
-- themselves, which are in Settings.
pub mod Masked
use async_ai_document_pipeli.Prelude.{
  ℕ, Bool, true, false, not, ◌&&◌, Option, none, some, List, [], ◌∷◌, map, String, code, ◌==◌, elem,
  str_eq, if◌then◌else◌, ◌⊕◌, is_empty, split_on,
}
use async_ai_document_pipeli.Core.Errors.{foreign}
use async_ai_document_pipeli.Core.Exec.{Outcome, ok, raised}
use async_ai_document_pipeli.Platform.{Parsers, Floats}
use async_ai_document_pipeli.Core.Whitespace.{strip}

-- `text.partition(sep)` for a separator of one character, given by its code; nothing where it is absent.
unfoldable pub partition_at : ℕ → String → Option (String × String)
partition_at sep String.[] = none
partition_at sep (String.◌∷◌ c s) = elim (code c == sep) [
  | true ↦ some ("", s)
  | false ↦ elim (partition_at sep s) [
    | none ↦ none
    | some (before, after) ↦ some (String.◌∷◌ c before, after)
  ]
]

-- `text.rpartition(sep)`
unfoldable pub rpartition_at : ℕ → String → Option (String × String)
rpartition_at sep String.[] = none
rpartition_at sep (String.◌∷◌ c s) = elim (rpartition_at sep s) [
  | some (before, after) ↦ some (String.◌∷◌ c before, after)
  | none ↦ if code c == sep then some ("", s) else none
]

-- What follows "://" where a text begins with it.
unfoldable pub after_separator : String → Option String
after_separator (String.◌∷◌ a (String.◌∷◌ b (String.◌∷◌ c s))) =
    if code a == b':' && code b == b'/' && code c == b'/' then some s else none
after_separator _ = none

-- `url.partition("://")`
unfoldable pub partition_scheme : String → Option (String × String)
unfolding after_separator
partition_scheme String.[] = none
partition_scheme (String.◌∷◌ c s) = elim (after_separator (String.◌∷◌ c s)) [
  | some remainder ↦ some ("", remainder)
  | none ↦ elim (partition_scheme s) [
    | none ↦ none
    | some (scheme, remainder) ↦ some (String.◌∷◌ c scheme, remainder)
  ]
]

unfoldable pub mask_url_password : String → String
unfolding partition_scheme rpartition_at partition_at
mask_url_password url = elim (partition_scheme url) [
  | none ↦ url
  | some (scheme, remainder) ↦ elim (rpartition_at b'@' remainder) [
    | none ↦ url
    | some (credentials, host) ↦ elim (partition_at b':' credentials) [
      | none ↦ url
      | some (user, password) ↦ scheme ⊕ ("://" ⊕ (user ⊕ (":***@" ⊕ host)))
    ]
  ]
]

abbrev pub log_levels : List String
log_levels = "CRITICAL" ∷ "ERROR" ∷ "WARNING" ∷ "INFO" ∷ "DEBUG" ∷ "NOTSET" ∷ []

abbrev value_error : {A : Type 0} → String → Outcome A
value_error message = raised (
    foreign record {
      type_name = "ValueError";
      classes = "ValueError" ∷ "Exception" ∷ [];
      text = message;
    })

module _ (parsers : Parsers) where
  -- `_normalise_log_level`. The message of the error shows the levels sorted.
  unfoldable pub normalise_log_level : (String → String) → String → Outcome String
  normalise_log_level upper value =
      if elem str_eq (upper value) log_levels
      then ok (upper value)
      else value_error (
          "log_level must be one of ['CRITICAL', 'DEBUG', 'ERROR', 'INFO', 'NOTSET', 'WARNING'], got "
          ⊕ parsers.repr value)

  -- The entries of a comma-separated list that are not blank, stripped.
  unfoldable pub nonblank : List String → List String
  nonblank [] = []
  nonblank (entry ∷ entries) =
      if is_empty (strip entry) then nonblank entries else strip entry ∷ nonblank entries

  -- `cors_origins`, of `cors_allow_origins`.
  unfoldable pub cors_origins : String → List String
  unfolding nonblank split_on
  cors_origins cors_allow_origins = nonblank (split_on b',' cors_allow_origins)

  -- An extension with the dot in front that it may lack.
  unfoldable pub dotted : String → String
  dotted String.[] = "." ⊕ parsers.lower ""
  dotted (String.◌∷◌ c s) =
      if code c == b'.'
      then parsers.lower (String.◌∷◌ c s)
      else "." ⊕ parsers.lower (String.◌∷◌ c s)

  -- `allowed_extensions`, of `allowed_upload_extensions`. The order in the frozenset is not observed.
  unfoldable pub allowed_extensions_of : String → List String
  unfolding nonblank dotted split_on
  allowed_extensions_of allowed_upload_extensions =
      map dotted (nonblank (split_on b',' allowed_upload_extensions))

-- `_check_jitter`
unfoldable pub check_jitter : {F : Type 0} → Floats F → F → Outcome F
check_jitter float value =
    if float.leq float.zero_f value && float.leq value float.one_f
    then ok value
    else value_error "retry_jitter_ratio must be between 0 and 1"
