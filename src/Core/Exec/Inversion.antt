-- ===== src/Core/Exec/Inversion.antt =====
-- From a call that returned to the calls that it made.
use async_ai_document_pipeli.Prelude.{◌≡◌, refl}
use async_ai_document_pipeli.Core.Errors.{Exn}
use async_ai_document_pipeli.Core.Exec.{
  Outcome, ok, raised, Exec, continue, ◌>>=◌, handle_with, try_except,
}

pub ok-injective {ℓ} : {A : Type ℓ} {a b : A} → ok a ≡ ok b → a ≡ b
ok-injective h = cc

module _ {ℓ κ} {S : Type 0} {A : Type ℓ} {B : Type κ} where
  continue-ok :
      (r : Outcome A) (f : A → Exec S B) (s : S) {b : B}
      → (continue r f s).0 ≡ ok b
      → (a : A) × (r ≡ ok a) × ((f a s).0 ≡ ok b) × (continue r f s ≡ f a s)
  continue-ok (ok a) f s h = (a, refl, h, refl)
  continue-ok (raised e) f s h = cc

  pub >>=-ok :
      (m : Exec S A) (f : A → Exec S B) (s : S) {b : B}
      → ((m >>= f) s).0 ≡ ok b
      → (a : A) × ((m s).0 ≡ ok a) × ((f a (m s).1).0 ≡ ok b) × ((m >>= f) s ≡ f a (m s).1)
  >>=-ok m f s h = continue-ok (m s).0 f (m s).1 h

module _ {ℓ} {S : Type 0} {A : Type ℓ} where
  -- Either the body returned, or it raised and the handler returned.
  pub data Tried (m : Exec S A) (h : Exn → Exec S A) (s : S) (a : A) : Type ℓ where
    returned : (m s).0 ≡ ok a → try_except m h s ≡ (ok a, (m s).1) → Tried m h s a
    handled :
        (e : Exn)
        → (m s).0 ≡ raised e
        → (h e (m s).1).0 ≡ ok a
        → try_except m h s ≡ h e (m s).1
        → Tried m h s a

  data Handled (r : Outcome A) (h : Exn → Exec S A) (s : S) (a : A) : Type ℓ where
    was_ok : r ≡ ok a → handle_with r h s ≡ (ok a, s) → Handled r h s a
    was_raised :
        (e : Exn) → r ≡ raised e → (h e s).0 ≡ ok a → handle_with r h s ≡ h e s → Handled r h s a

  handle_with-ok :
      (r : Outcome A) (h : Exn → Exec S A) (s : S) {a : A}
      → (handle_with r h s).0 ≡ ok a
      → Handled r h s a
  handle_with-ok (ok b) h s {a} eq = was_ok eq (cc)
  handle_with-ok (raised e) h s eq = was_raised e refl eq refl

  pub try_except-ok :
      (m : Exec S A) (h : Exn → Exec S A) (s : S) {a : A}
      → (try_except m h s).0 ≡ ok a
      → Tried m h s a
  try_except-ok m h s eq = elim (handle_with-ok (m s).0 h (m s).1 eq) [
    | was_ok p q ↦ returned p q
    | was_raised e p q r ↦ handled e p q r
  ]
