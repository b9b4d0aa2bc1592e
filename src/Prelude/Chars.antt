-- ===== src/Prelude/Chars.antt =====
-- Texts whose characters all pass a test.
use Prim.Native.Nat.{ℕ, zero, suc}
use Prim.Native.String.{String}
use mathlib.Core.Bool.{Bool, true, false}
use async_ai_document_pipeli.Prelude.Tests.{if◌then◌else◌}
use async_ai_document_pipeli.Prelude.Texts.{
  Each, prefix, ◌⊕◌, rstrip_where, lstrip_where, strip_where,
}

module _ (P : ℕ → Type 0) where
  pub Each-prefix : (n : ℕ) (s : String) → Each P s → Each P (prefix n s)
  Each-prefix zero s h = tt
  Each-prefix (suc n) String.[] h = tt
  Each-prefix (suc n) (String.◌∷◌ c s) h = (h.0, Each-prefix n s h.1)

  pub Each-⊕ : (s t : String) → Each P s → Each P t → Each P (s ⊕ t)
  Each-⊕ String.[] t h k = k
  Each-⊕ (String.◌∷◌ c s) t h k = (h.0, Each-⊕ s t h.1 k)

  pub Each-if : (b : Bool) (s t : String) → Each P s → Each P t → Each P (if b then s else t)
  Each-if true s t h k = h
  Each-if false s t h k = k

  pub Each-strip_where : (drops : ℕ → Bool) (s : String) → Each P s → Each P (strip_where drops s)
  unfolding strip_where
  Each-strip_where drops s h = right (lstrip_where drops s) (left s h)
    where
      right : (s : String) → Each P s → Each P (rstrip_where drops s)
      right String.[] h = tt
      right (String.◌∷◌ c s) h =
          Each-if _ String.[] (String.◌∷◌ c (rstrip_where drops s)) tt (h.0, right s h.1)

      left : (s : String) → Each P s → Each P (lstrip_where drops s)
      left String.[] h = tt
      left (String.◌∷◌ c s) h = Each-if _ (lstrip_where drops s) (String.◌∷◌ c s) (left s h.1) h
