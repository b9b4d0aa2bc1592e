-- ===== src/Services/TextExtraction/Normal.antt =====
-- What `truncate` and the loop of `normalise` in app/services/text_extraction.py guarantee.
use native.Mathlib.Numerals.{add-one}
use async_ai_document_pipeli.Prelude.{
  ℕ, zero, suc, ◌+◌, ◌≤◌, ◌<◌, ◌≡◌, refl, Bool, true, false, List, [], ◌∷◌, String, arith, len,
  prefix, ◌⊕◌, if◌then◌else◌, map, len-prefix, after, is_empty, ◌⊎◌, ap, leb, Bool-cases, inl, inr,
}
use async_ai_document_pipeli.Services.TextExtraction.{truncate, collapse, nonempty}

prefix-⊕-after : (n : ℕ) (s : String) → prefix n s ⊕ after n s ≡ s
prefix-⊕-after zero s = refl
prefix-⊕-after (suc n) String.[] = refl
prefix-⊕-after (suc n) (String.◌∷◌ c s) = ap (String.◌∷◌ c) (prefix-⊕-after n s)

-- `truncate` returns the whole text and `false` when the text fits, and otherwise a beginning of
-- it that has exactly the allowed length, and `true`.
pub truncate-bounds :
    (text : String) (max_chars : ℕ)
    → (len text ≤ max_chars) × (truncate text max_chars ≡ (text, false))
      ⊎ (max_chars < len text)
        × ((truncate text max_chars).1 ≡ true)
        × (len (truncate text max_chars).0 ≡ max_chars)
        × ((rest : String) × ((truncate text max_chars).0 ⊕ rest ≡ text))
unfolding truncate
truncate-bounds text max_chars = elim (Bool-cases (leb (len text) max_chars)) [
  | inl fits ↦ inl (ground arith, rw fits)
  | inr long ↦ inr (
    ground arith,
    rw long,
    ground (arith, len-prefix max_chars text),
    (after max_chars text, rw long (prefix-⊕-after max_chars text)),
  )
]

-- No two blank lines in a row; `blank` says whether the line before is blank.
abbrev pub SpacedFrom : Bool → List String → Type 0
SpacedFrom blank [] = Unit
SpacedFrom false (line ∷ lines) = SpacedFrom (is_empty line) lines
SpacedFrom true (line ∷ lines) = (is_empty line ≡ false) × SpacedFrom false lines

abbrev started : ℕ → Bool
started zero = false
started (suc n) = true

module _ (line : String) (lines : List String) where
  collapse-full :
      (run : ℕ) → is_empty line ≡ false → collapse run (line ∷ lines) ≡ line ∷ collapse 0 lines
  unfolding collapse
  collapse-full run h = rw (h, collapse)

  collapse-blank : is_empty line ≡ true → collapse 0 (line ∷ lines) ≡ "" ∷ collapse 1 lines
  unfolding collapse
  collapse-blank h = rw (h, collapse)

  collapse-more :
      (run : ℕ)
      → is_empty line ≡ true
      → collapse (suc run) (line ∷ lines) ≡ collapse (suc (suc run)) lines
  unfolding collapse
  collapse-more run h = ground (arith, add-one (suc run))

collapse-SpacedFrom :
    (run : ℕ) (lines : List String) → SpacedFrom (started run) (collapse run lines)
collapse-SpacedFrom zero [] = unfold collapse in tt
collapse-SpacedFrom (suc run) [] = unfold collapse in tt
collapse-SpacedFrom zero (line ∷ lines) = elim (Bool-cases (is_empty line)) [
  | inl blank ↦ rw (collapse-blank line lines blank) (collapse-SpacedFrom 1 lines)
  | inr full ↦
      rw (collapse-full line lines 0 full) (rw (full, SpacedFrom) (collapse-SpacedFrom 0 lines))
]
collapse-SpacedFrom (suc run) (line ∷ lines) = elim (Bool-cases (is_empty line)) [
  | inl blank ↦ rw (collapse-more line lines run blank) (collapse-SpacedFrom (suc (suc run)) lines)
  | inr full ↦ rw (collapse-full line lines (suc run) full) (full, collapse-SpacedFrom 0 lines)
]

nonempty-collapse : (run : ℕ) (lines : List String) → nonempty (collapse run lines) ≡ nonempty lines
unfolding nonempty collapse
nonempty-collapse run [] = refl
nonempty-collapse run (line ∷ lines) =
    ground (arith, nonempty-collapse 0 lines, nonempty-collapse (run + 1) lines)

-- The lengths of the runs of blank lines: before the first line with text, between two of them, and
-- after the last; `before` have been met in the run so far.
unfoldable pub blank_runs : ℕ → List String → List ℕ
blank_runs before [] = before ∷ []
blank_runs before (line ∷ lines) =
    if is_empty line then blank_runs (before + 1) lines else before ∷ blank_runs 0 lines

-- A run is shortened to one blank line.
unfoldable pub single : ℕ → ℕ
single zero = 0
single (suc n) = 1

collapse-blank_runs :
    (run : ℕ) (lines : List String)
    → blank_runs (single run) (collapse run lines) ≡ map single (blank_runs run lines)
unfolding collapse blank_runs single
collapse-blank_runs zero [] = refl
collapse-blank_runs (suc run) [] = refl
collapse-blank_runs zero (line ∷ lines) = elim (Bool-cases (is_empty line)) [
  | inl blank ↦ rw (collapse-blank line lines blank, blank) (collapse-blank_runs 1 lines)
  | inr full ↦ rw (collapse-full line lines 0 full, full) (ap (◌∷◌ 0) (collapse-blank_runs 0 lines))
]
collapse-blank_runs (suc run) (line ∷ lines) = elim (Bool-cases (is_empty line)) [
  | inl blank ↦
      rw (collapse-more line lines run blank, blank, add-one (suc run))
        (collapse-blank_runs (suc (suc run)) lines)
  | inr full ↦
      rw (collapse-full line lines (suc run) full, full) (ap (◌∷◌ 1) (collapse-blank_runs 0 lines))
]

-- The loop of `normalise` leaves no two blank lines in a row and keeps the lines that have text,
-- in order; each run of blank lines, before, between and after them, is shortened to exactly one
-- blank line, and where there was none there is none.
pub collapse_correct :
    (lines : List String)
    → SpacedFrom false (collapse 0 lines)
      × (nonempty (collapse 0 lines) ≡ nonempty lines)
      × (blank_runs 0 (collapse 0 lines) ≡ map single (blank_runs 0 lines))
unfolding single
collapse_correct lines =
    (collapse-SpacedFrom 0 lines, nonempty-collapse 0 lines, collapse-blank_runs 0 lines)
