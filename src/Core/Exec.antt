-- ===== src/Core/Exec.antt =====
-- Python statements that read and write the world and may raise. What was written before a raise
-- stays written, so the state comes back beside the exception too.
pub mod Inversion
use async_ai_document_pipeli.Core.Errors.{Exn}

pub data Outcome {ℓ} (A : Type ℓ) : Type ℓ where
  ok : A → Outcome A
  raised : Exn → Outcome A

abbrev pub Exec {ℓ} : Type 0 → Type ℓ → Type ℓ
Exec S A = S → Outcome A × S

module _ {ℓ} {S : Type 0} {A : Type ℓ} where
  abbrev pub pure : A → Exec S A
  pure a s = (ok a, s)

  abbrev pub raise : Exn → Exec S A
  raise e s = (raised e, s)

  abbrev pub gets : (S → A) → Exec S A
  gets f s = (ok (f s), s)

module _ {ℓ κ} {S : Type 0} {A : Type ℓ} {B : Type κ} where
  abbrev pub continue : Outcome A → (A → Exec S B) → Exec S B
  continue (ok a) f s = f a s
  continue (raised e) f s = (raised e, s)

  infixl 10 ◌>>=◌ ◌>>◌
  abbrev pub ◌>>=◌ : Exec S A → (A → Exec S B) → Exec S B
  ◌>>=◌ m f s = let (r, s') = m s in continue r f s'

  abbrev pub ◌>>◌ : Exec S A → Exec S B → Exec S B
  m >> n = m >>= λ _. n

module _ {ℓ} {S : Type 0} {A : Type ℓ} where
  abbrev pub handle_with : Outcome A → (Exn → Exec S A) → Exec S A
  handle_with (ok a) h s = (ok a, s)
  handle_with (raised e) h s = h e s

  -- `try: m` with an `except` block that receives every exception.
  abbrev pub try_except : Exec S A → (Exn → Exec S A) → Exec S A
  try_except m h s = let (r, s') = m s in handle_with r h s'
