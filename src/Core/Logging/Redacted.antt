-- ===== src/Core/Logging/Redacted.antt =====
-- What `redact_sensitive` of app/core/logging.py masks, and how deep it looks.
use async_ai_document_pipeli.Prelude.{◌≡◌, refl, Bool, true, false, String, if◌then◌else◌}
use async_ai_document_pipeli.Core.Logging.{
  LogValue, text, dict, other, LogFields, end, entry, redacted, is_sensitive, redact_inner,
  redact_value, redact_sensitive,
}

module _ (lower : String → String) where
  -- Every entry at a sensitive key holds the placeholder, and so in the dictionaries one level down.
  abbrev pub InnerMasked : LogFields → Type 0
  InnerMasked end = Unit
  InnerMasked (entry key value fields) =
      (is_sensitive lower key ≡ true → value ≡ redacted) × InnerMasked fields

  abbrev pub ValueMasked : LogValue → Type 0
  ValueMasked (text s) = Unit
  ValueMasked (dict fields) = InnerMasked fields
  ValueMasked (other s) = Unit

  abbrev pub Masked : LogFields → Type 0
  Masked end = Unit
  Masked (entry key value fields) =
      (is_sensitive lower key ≡ true → value ≡ redacted) × ValueMasked value × Masked fields

  -- Whatever is not at a sensitive key, on either level, is as it was, and every key is in its place.
  abbrev pub InnerKept : LogFields → LogFields → Type 0
  InnerKept end end = Unit
  InnerKept (entry k v fs) (entry k' v' fs') =
      (k' ≡ k) × (is_sensitive lower k ≡ false → v' ≡ v) × InnerKept fs fs'
  InnerKept _ _ = ⊥

  abbrev pub ValueKept : LogValue → LogValue → Type 0
  ValueKept (text s) v = v ≡ text s
  ValueKept (dict fields) (dict fields') = InnerKept fields fields'
  ValueKept (dict fields) _ = ⊥
  ValueKept (other s) v = v ≡ other s

  abbrev pub Kept : LogFields → LogFields → Type 0
  Kept end end = Unit
  Kept (entry k v fs) (entry k' v' fs') =
      (k' ≡ k) × (is_sensitive lower k ≡ false → ValueKept v v') × Kept fs fs'
  Kept _ _ = ⊥

  redact_inner-Masked :
      (fields : LogFields)
      → InnerMasked (redact_inner lower fields) × InnerKept fields (redact_inner lower fields)
  unfolding redact_inner
  redact_inner-Masked end = (tt, tt)
  redact_inner-Masked (entry key value fields) =
      let (masked, kept) = redact_inner-Masked fields in
      (((λ h. rw h refl), masked), (refl, (λ h. rw h refl), kept))

  redact_value-Masked :
      (value : LogValue)
      → ValueMasked (redact_value lower value) × ValueKept value (redact_value lower value)
  unfolding redact_value
  redact_value-Masked (text s) = (tt, refl)
  redact_value-Masked (dict fields) = redact_inner-Masked fields
  redact_value-Masked (other s) = (tt, refl)

  entry-Masked :
      (sensitive : Bool) (value : LogValue)
      → ValueMasked (if sensitive then redacted else redact_value lower value)
  entry-Masked true value = tt
  entry-Masked false value = (redact_value-Masked value).0

  -- After `redact_sensitive`, each sensitive key of the event and of the dictionaries directly in
  -- it has the placeholder for its value, whatever it held; all keys are in their places, and
  -- every value at a key that is not sensitive is as it was.
  pub redact_sensitive-Masked :
      (fields : LogFields)
      → Masked (redact_sensitive lower fields) × Kept fields (redact_sensitive lower fields)
  unfolding redact_sensitive
  redact_sensitive-Masked end = (tt, tt)
  redact_sensitive-Masked (entry key value fields) =
      let (masked, kept) = redact_sensitive-Masked fields in
      (
        ((λ h. rw h refl), entry-Masked (is_sensitive lower key) value, masked),
        (refl, (λ h. rw h (redact_value-Masked value).1), kept),
      )

  -- A dictionary two levels down, below keys that are not sensitive, is logged as it is,
  -- sensitive keys included.
  pub redact_sensitive-shallow :
      (key inner : String) (secrets rest : LogFields)
      → is_sensitive lower key ≡ false
      → is_sensitive lower inner ≡ false
      → redact_sensitive lower (entry key (dict (entry inner (dict secrets) end)) rest)
        ≡ entry key (dict (entry inner (dict secrets) end)) (redact_sensitive lower rest)
  unfolding redact_sensitive redact_value redact_inner
  redact_sensitive-shallow key inner secrets rest outer_plain inner_plain =
      rw (outer_plain, inner_plain) refl
