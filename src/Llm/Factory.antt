-- ===== src/Llm/Factory.antt =====
-- app/llm/factory.py: the choice of the provider.
use async_ai_document_pipeli.Prelude.{
  ◌≡◌, refl, ◌⊎◌, inl, inr, true, false, Bool-cases, Option, none, some, String, is_empty,
  if◌then◌else◌,
}
use async_ai_document_pipeli.Core.Enums.{LlmProviderName, openai, fake}
use async_ai_document_pipeli.Core.Errors.{Exn, app_exn, llm_authentication, llm_configuration}
use async_ai_document_pipeli.Core.Exec.{Outcome, ok, raised}
use async_ai_document_pipeli.Core.Settings.{Settings}

-- The provider that a process works with, and the model of the one by OpenAI.
pub data BuiltProvider : Type 0 where
  fake_provider : BuiltProvider
  openai_provider : String → BuiltProvider

abbrev pub key_missing : Exn
key_missing = app_exn llm_configuration (
    "LLM_PROVIDER is 'openai' but OPENAI_API_KEY is not set. Set the key, or set LLM_PROVIDER=fake to run without one.")

module _ {F : Type 0} where
  -- `OpenAIProvider.__init__`
  unfoldable pub init_openai : Settings F → Outcome BuiltProvider
  init_openai settings = elim settings.openai_api_key [
    | none ↦ raised (app_exn llm_authentication "OPENAI_API_KEY is not set.")
    | some key ↦ ok (openai_provider settings.openai_model)
  ]

  unfoldable pub build_provider : Settings F → Outcome BuiltProvider
  unfolding init_openai
  build_provider settings = elim settings.llm_provider [
    | fake ↦ ok fake_provider
    | openai ↦ elim settings.openai_api_key [
      | none ↦ raised key_missing
      | some key ↦ if is_empty key then raised key_missing else init_openai settings
    ]
  ]

  -- A key that is not empty.
  abbrev pub HasKey : Settings F → Type 0
  HasKey settings = (key : String) × (settings.openai_api_key ≡ some key) × (is_empty key ≡ false)

  abbrev Decided : Settings F → Type 0
  Decided settings =
      ((settings.llm_provider ≡ fake) × (build_provider settings ≡ ok fake_provider))
      ⊎ ((settings.llm_provider ≡ openai)
          × HasKey settings
          × (build_provider settings ≡ ok (openai_provider settings.openai_model)))
      ⊎ ((settings.llm_provider ≡ openai)
          × (¬ HasKey settings)
          × (build_provider settings ≡ raised key_missing))

  provider-Decided :
      (settings : Settings F) (name : LlmProviderName) (key : Option String)
      → settings.llm_provider ≡ name
      → settings.openai_api_key ≡ key
      → Decided settings
  unfolding build_provider
  provider-Decided settings fake key n k = inl (n, rw (n, build_provider) refl)
  provider-Decided settings openai none n k =
      inr (inr (n, (λ h. absurd (unset h.1)), rw (n, k, build_provider) refl))
    where
      unset : {text : String} → ¬ (settings.openai_api_key ≡ some text)
      unset h = cc
  provider-Decided settings openai (some key) n k = elim (Bool-cases (is_empty key)) [
    | inl empty ↦
        inr (inr (n, (λ h. blank h.0 h.1 h.2 empty), rw (n, k, empty, build_provider) refl))
    | inr full ↦
        inr (inl (n, (key, k, full), rw (n, k, full, build_provider) (rw (k, init_openai) refl)))
  ]
    where
      blank :
          (text : String)
          → settings.openai_api_key ≡ some text
          → is_empty text ≡ false
          → ¬ (is_empty key ≡ true)
      blank text h full empty = cc

  -- `build_provider` returns the fake provider where it is selected, and the one by OpenAI with
  -- the model of the settings where that is selected and a key that is not empty is set. In every
  -- other case it raises `LLMConfigurationError`, so that the constructor's own error is never
  -- met.
  pub build_provider-decided :
      (settings : Settings F)
      → ((settings.llm_provider ≡ fake) × (build_provider settings ≡ ok fake_provider))
        ⊎ ((settings.llm_provider ≡ openai)
            × HasKey settings
            × (build_provider settings ≡ ok (openai_provider settings.openai_model)))
        ⊎ ((settings.llm_provider ≡ openai)
            × (¬ HasKey settings)
            × (build_provider settings ≡ raised key_missing))
  build_provider-decided settings =
      provider-Decided settings settings.llm_provider settings.openai_api_key refl refl
