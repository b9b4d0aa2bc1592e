-- ===== src/Services/TextExtraction.antt =====
-- app/services/text_extraction.py: from the bytes of an upload to normalised text.
unfoldable pub use async_ai_document_pipeli.Core.Whitespace.{is_space, rstrip, strip}
pub mod Normal
use async_ai_document_pipeli.Prelude.{
  ℕ, suc, zero, ◌+◌, Bool, true, false, Option, none, some, List, [], ◌∷◌, ◌++◌, map, String,
  str_eq, ◌==◌, leb, if◌then◌else◌, len, prefix, is_empty, split_on, join, ◌⊕◌, code, ◌≡◌, refl,
}
use async_ai_document_pipeli.Core.Errors.{
  Exn, text_extraction, empty_document, unsupported_file_type, app_exn, isinstance_any,
}
use async_ai_document_pipeli.Core.Exec.{Outcome, ok, raised}
use async_ai_document_pipeli.Platform.{Parsers, Bytes}

abbrev pub newline : ℕ
newline = 10

abbrev pub carriage_return : ℕ
carriage_return = 13

-- text.replace("\r\n", "\n")
unfoldable pub replace_crlf : String → String
replace_crlf String.[] = String.[]
replace_crlf (String.◌∷◌ c String.[]) = String.◌∷◌ c String.[]
replace_crlf (String.◌∷◌ c (String.◌∷◌ d s)) =
    let kept = replace_crlf (String.◌∷◌ d s) in
    let joined = String.◌∷◌ d (replace_crlf s) in
    if code c == carriage_return
    then (if code d == newline then joined else String.◌∷◌ c kept)
    else String.◌∷◌ c kept

-- text.replace("\r", "\n")
unfoldable pub replace_cr : String → String
replace_cr String.[] = String.[]
replace_cr (String.◌∷◌ c s) =
    if code c == carriage_return then "\n" ⊕ replace_cr s else String.◌∷◌ c (replace_cr s)

-- The loop of `normalise`, with the length of the run of blank lines so far.
unfoldable pub collapse : ℕ → List String → List String
collapse blank_run [] = []
collapse blank_run (line ∷ lines) = elim (is_empty line) [
  | false ↦ line ∷ collapse 0 lines
  | true ↦
      let rest = collapse (blank_run + 1) lines in if blank_run + 1 == 1 then "" ∷ rest else rest
]

unfoldable pub normalised_lines : String → List String
unfolding replace_crlf replace_cr collapse rstrip
normalised_lines text = collapse 0 (map rstrip (split_on newline (replace_cr (replace_crlf text))))

unfoldable pub normalise : String → String
unfolding normalised_lines strip
normalise text = strip (join "\n" (normalised_lines text))

unfoldable pub truncate : String → ℕ → String × Bool
truncate text max_chars =
    if leb (len text) max_chars then (text, false) else (prefix max_chars text, true)

abbrev pub pdf_errors : List String
pdf_errors = "pypdf.errors.PyPdfError" ∷ "ValueError" ∷ "OSError" ∷ []

abbrev pub docx_errors : List String
docx_errors =
    "docx.opc.exceptions.OpcError" ∷ "zipfile.BadZipFile" ∷ "ValueError" ∷ "KeyError" ∷ "OSError"
    ∷ []

-- An exception of a parser in an `except` clause that raises `TextExtractionError` for some classes.
unfoldable pub or_unparsed : {A : Type 0} → List String → String → Outcome A → Outcome A
unfolding isinstance_any
or_unparsed classes message (ok a) = ok a
or_unparsed classes message (raised e) =
    if isinstance_any e classes then raised (app_exn text_extraction message) else raised e

abbrev pub map_outcome : {A B : Type 0} → (A → B) → Outcome A → Outcome B
map_outcome f (ok a) = ok (f a)
map_outcome f (raised e) = raised e

-- `if cell.text`
unfoldable pub nonempty : List String → List String
nonempty [] = []
nonempty (t ∷ ts) = if is_empty t then nonempty ts else t ∷ nonempty ts

module _ (parsers : Parsers) where
  unfoldable pub extract_pdf : Bytes → Outcome String
  unfolding or_unparsed
  extract_pdf bytes =
      map_outcome (join "\n\n")
        (or_unparsed pdf_errors "The PDF could not be parsed." (parsers.pdf_pages bytes))

  unfoldable pub extract_docx : Bytes → Outcome String
  unfolding or_unparsed nonempty
  extract_docx bytes =
      map_outcome (λ blocks. join "\n" (blocks.0 ++ nonempty blocks.1))
        (or_unparsed docx_errors "The DOCX file could not be parsed." (parsers.docx_texts bytes))

  -- The loop of `extract_txt`, over the encodings that are left.
  unfoldable pub decode_first : List String → Bytes → Outcome String
  decode_first [] bytes =
      raised (app_exn text_extraction "The text file is not in a supported encoding.")
  decode_first (encoding ∷ encodings) bytes = elim (parsers.decode encoding bytes) [
    | some text ↦ ok text
    | none ↦ decode_first encodings bytes
  ]

  unfoldable pub extract_txt : Bytes → Outcome String
  unfolding decode_first
  extract_txt = decode_first ("utf-8-sig" ∷ "cp1252" ∷ [])

  -- `EXTRACTORS.get(extension)`
  unfoldable pub extractor : String → Option (Bytes → Outcome String)
  unfolding extract_pdf extract_docx extract_txt
  extractor extension =
      if str_eq extension ".pdf"
      then some extract_pdf
      else if str_eq extension ".docx"
      then some extract_docx
      else if str_eq extension ".txt"
      then some extract_txt
      else none

  unfoldable pub extract_text : Bytes → String → Outcome String
  unfolding extractor normalise
  extract_text bytes extension = elim (extractor (parsers.lower extension)) [
    | none ↦
        raised
          (app_exn unsupported_file_type ("No text extractor is registered for " ⊕ extension ⊕ "."))
    | some extract ↦ elim (extract bytes) [
      | raised e ↦ raised e
      | ok raw ↦
          let text = normalise raw in
          if is_empty text
          then raised (
              app_exn empty_document
                "The document contains no extractable text. Scanned or image-only documents require OCR, which this pipeline does not perform.")
          else ok text
    ]
  ]
