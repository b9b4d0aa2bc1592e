-- ===== src/Core/Errors.antt =====
-- app/core/exceptions.py: the exception hierarchy, with its class attributes and their inheritance.
pub mod Hierarchy
use async_ai_document_pipeli.Prelude.{
  ℕ, zero, suc, Bool, true, false, Option, none, some, List, [], ◌∷◌, String, elem, str_eq,
}

-- The classes that derive from `AppError`, and `AppError` itself.
pub data ErrorClass : Type 0 where
  app_error retryable_error non_retryable_error : ErrorClass
  not_found conflict validation_failed file_too_large unsupported_file_type : ErrorClass
  dependency_unavailable storage_error storage_path text_extraction empty_document : ErrorClass
  llm_error llm_rate_limit llm_timeout llm_provider llm_authentication : ErrorClass
  llm_response_validation llm_configuration : ErrorClass
  queue_error malformed_event invalid_job_transition : ErrorClass

-- The base class that a class names.
unfoldable pub base_of : ErrorClass → Option ErrorClass
base_of app_error = none
base_of retryable_error = some app_error
base_of non_retryable_error = some app_error
base_of not_found = some non_retryable_error
base_of conflict = some non_retryable_error
base_of validation_failed = some non_retryable_error
base_of file_too_large = some non_retryable_error
base_of unsupported_file_type = some non_retryable_error
base_of dependency_unavailable = some retryable_error
base_of storage_error = some retryable_error
base_of storage_path = some non_retryable_error
base_of text_extraction = some non_retryable_error
base_of empty_document = some non_retryable_error
base_of llm_error = some app_error
base_of llm_rate_limit = some llm_error
base_of llm_timeout = some llm_error
base_of llm_provider = some llm_error
base_of llm_authentication = some llm_error
base_of llm_response_validation = some llm_error
base_of llm_configuration = some non_retryable_error
base_of queue_error = some retryable_error
base_of malformed_event = some non_retryable_error
base_of invalid_job_transition = some conflict

-- The method resolution order: a class and its ancestors. The longest chain has four classes.
unfoldable pub ancestors : ℕ → ErrorClass → List ErrorClass
ancestors zero c = []
ancestors (suc depth) c = c ∷ elim (base_of c) [ none ↦ [] | some b ↦ ancestors depth b ]

unfoldable pub mro : ErrorClass → List ErrorClass
unfolding ancestors base_of
mro c = ancestors 4 c

-- The attributes that a class body assigns itself.
unfoldable pub own_code : ErrorClass → Option String
own_code app_error = some "internal_error"
own_code retryable_error = some "transient_error"
own_code non_retryable_error = some "permanent_error"
own_code not_found = some "not_found"
own_code conflict = some "conflict"
own_code validation_failed = some "validation_failed"
own_code file_too_large = some "file_too_large"
own_code unsupported_file_type = some "unsupported_file_type"
own_code dependency_unavailable = some "dependency_unavailable"
own_code storage_error = some "storage_error"
own_code storage_path = some "invalid_storage_path"
own_code text_extraction = some "text_extraction_failed"
own_code empty_document = some "empty_document"
own_code llm_error = some "llm_error"
own_code llm_rate_limit = some "llm_rate_limited"
own_code llm_timeout = some "llm_timeout"
own_code llm_provider = some "llm_provider_error"
own_code llm_authentication = some "llm_authentication_failed"
own_code llm_response_validation = some "llm_invalid_response"
own_code llm_configuration = some "llm_not_configured"
own_code queue_error = some "queue_error"
own_code malformed_event = some "malformed_event"
own_code invalid_job_transition = some "invalid_job_transition"

unfoldable pub own_http_status : ErrorClass → Option ℕ
own_http_status app_error = some 500
own_http_status retryable_error = some 503
own_http_status not_found = some 404
own_http_status conflict = some 409
own_http_status validation_failed = some 400
own_http_status file_too_large = some 413
own_http_status unsupported_file_type = some 415
own_http_status dependency_unavailable = some 503
own_http_status storage_path = some 400
own_http_status text_extraction = some 422
own_http_status empty_document = some 422
own_http_status llm_error = some 502
own_http_status llm_rate_limit = some 429
own_http_status llm_timeout = some 504
own_http_status llm_authentication = some 502
own_http_status llm_response_validation = some 422
own_http_status llm_configuration = some 503
own_http_status malformed_event = some 400
own_http_status _ = none

unfoldable pub own_retryable : ErrorClass → Option Bool
own_retryable app_error = some false
own_retryable retryable_error = some true
own_retryable non_retryable_error = some false
own_retryable llm_rate_limit = some true
own_retryable llm_timeout = some true
own_retryable llm_provider = some true
own_retryable llm_authentication = some false
own_retryable llm_response_validation = some false
own_retryable _ = none

-- Attribute lookup: the first class of the order that has it.
unfoldable pub first_own : {A : Type 0} → (ErrorClass → Option A) → A → List ErrorClass → A
first_own own d [] = d
first_own own d (c ∷ cs) = elim (own c) [ some a ↦ a | none ↦ first_own own d cs ]

-- `AppError` assigns every attribute, so the value for an empty order is never used.
unfoldable pub code : ErrorClass → String
unfolding first_own own_code mro
code c = first_own own_code "" (mro c)

unfoldable pub http_status : ErrorClass → ℕ
unfolding first_own own_http_status mro
http_status c = first_own own_http_status 0 (mro c)

unfoldable pub retryable : ErrorClass → Bool
unfolding first_own own_retryable mro
retryable c = first_own own_retryable false (mro c)

-- An `AppError` instance, without the diagnostic `details`.
pub record AppError : Type 0 where
  pub class : ErrorClass
  pub message : String

-- An exception of a driver or of the standard library: its class, the qualified names of the classes that it is
-- an instance of, and its text.
pub record ForeignError : Type 0 where
  pub type_name : String
  pub classes : List String
  pub text : String

pub data Exn : Type 0 where
  app : AppError → Exn
  foreign : ForeignError → Exn

-- `isinstance(error, C)` for a class C that is not an `AppError`.
unfoldable pub isinstance : Exn → String → Bool
isinstance (app e) name = false
isinstance (foreign e) name = elem str_eq name e.classes

-- `isinstance(error, (C, …))`, also what an `except (C, …)` clause tests.
unfoldable pub isinstance_any : Exn → List String → Bool
isinstance_any e [] = false
isinstance_any e (name ∷ names) = elim (isinstance e name) [
  | true ↦ true
  | false ↦ isinstance_any e names
]

unfoldable pub is_queue_error : Exn → Bool
is_queue_error (app e) = elim e.class [ queue_error ↦ true | _ ↦ false ]
is_queue_error (foreign e) = false

abbrev pub app_exn : ErrorClass → String → Exn
app_exn c m = app (record { class = c; message = m })
