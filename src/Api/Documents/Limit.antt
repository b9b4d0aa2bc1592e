-- ===== src/Api/Documents/Limit.antt =====
-- The limit of `_read_within_limit` in app/api/routes/documents.py.
use async_ai_document_pipeli.Prelude.{
  ℕ, ◌+◌, ◌≤◌, ◌<◌, ◌≡◌, ◌⊎◌, inl, inr, refl, true, false, List, [], ◌∷◌, ◌++◌, ◌==◌, ltb, length,
  length-append, Bool-cases, arith,
}
use async_ai_document_pipeli.Core.Errors.{file_too_large, app_exn}
use async_ai_document_pipeli.Core.Exec.{ok, raised}
use async_ai_document_pipeli.Core.Settings.{Settings}
use async_ai_document_pipeli.Platform.{Bytes, Floats}
use async_ai_document_pipeli.Services.FileValidation.{too_large}
use async_ai_document_pipeli.Api.Documents.{read_chunks, read_within_limit}

-- What an upload holds: its chunks up to the first empty one.
abbrev pub content : List Bytes → Bytes
content [] = []
content (chunk ∷ chunks) = elim (length chunk == 0) [ true ↦ [] | false ↦ chunk ++ content chunks ]

module _ {F : Type 0} (float : Floats F) (settings : Settings F) where
  abbrev Limited : ℕ → List Bytes → Type 0
  Limited total chunks =
      (total + length (content chunks) ≤ settings.max_upload_bytes)
        × (read_chunks float settings total chunks ≡ ok (content chunks))
      ⊎ (settings.max_upload_bytes < total + length (content chunks))
        × (read_chunks float settings total chunks
            ≡ raised (app_exn file_too_large (too_large float settings)))

  module _ (chunk : Bytes) (chunks : List Bytes) where
    content-last : length chunk == 0 ≡ true → content (chunk ∷ chunks) ≡ []
    content-last last = rw (last, content) refl

    content-more :
        length chunk == 0 ≡ false
        → length (content (chunk ∷ chunks)) ≡ length chunk + length (content chunks)
    content-more more = rw (more, content) (length-append chunk (content chunks))

    module _ (total : ℕ) where
      last-Limited :
          total ≤ settings.max_upload_bytes
          → length chunk == 0 ≡ true
          → Limited total (chunk ∷ chunks)
      unfolding read_chunks
      last-Limited fits last =
          inl (rw (content-last last) (omega arith), rw (last, read_chunks, content) refl)

      over-Limited :
          length chunk == 0 ≡ false
          → ltb settings.max_upload_bytes (total + length chunk) ≡ true
          → Limited total (chunk ∷ chunks)
      unfolding read_chunks
      over-Limited more over =
          inr (ground (arith, content-more more), rw (more, over, read_chunks) refl)

      under-Limited :
          length chunk == 0 ≡ false
          → ltb settings.max_upload_bytes (total + length chunk) ≡ false
          → Limited (total + length chunk) chunks
          → Limited total (chunk ∷ chunks)
      unfolding read_chunks
      under-Limited more under (inl (small, whole)) =
          inl
            (ground (arith, content-more more), rw (more, under, whole, read_chunks, content) refl)
      under-Limited more under (inr (large, refused)) =
          inr (ground (arith, content-more more), rw (more, under, refused, read_chunks) refl)

  read_chunks-Limited :
      (total : ℕ) (chunks : List Bytes) → total ≤ settings.max_upload_bytes → Limited total chunks
  read_chunks-Limited total [] fits = unfold read_chunks in inl (omega arith, refl)
  read_chunks-Limited total (chunk ∷ chunks) fits = elim (Bool-cases (length chunk == 0)) [
    | inl last ↦ last-Limited chunk chunks total fits last
    | inr more ↦ elim (Bool-cases (ltb settings.max_upload_bytes (total + length chunk))) [
      | inl over ↦ over-Limited chunk chunks total more over
      | inr under ↦
          under-Limited chunk chunks total more under
            (read_chunks-Limited (total + length chunk) chunks (ground arith))
    ]
  ]

  -- `_read_within_limit` returns the chunks of the upload up to the first empty one, joined, if
  -- they are within the limit together, and raises `FileTooLargeError` if they are not.
  pub read_within_limit-total :
      (chunks : List Bytes)
      → (length (content chunks) ≤ settings.max_upload_bytes)
          × (read_within_limit float settings chunks ≡ ok (content chunks))
        ⊎ (settings.max_upload_bytes < length (content chunks))
          × (read_within_limit float settings chunks
              ≡ raised (app_exn file_too_large (too_large float settings)))
  unfolding read_within_limit
  read_within_limit-total chunks = elim (read_chunks-Limited 0 chunks (omega arith)) [
    | inl (small, whole) ↦ inl (omega arith, whole)
    | inr (large, refused) ↦ inr (omega arith, refused)
  ]
