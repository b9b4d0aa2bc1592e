-- ===== src/Api/Handlers.antt =====
-- The exception handlers of app/api/main.py, and `AppError.to_dict` of app/core/exceptions.py.
use async_ai_document_pipeli.Prelude.{
  ℕ, ◌≡◌, refl, ◌≤◌, ◌<◌, Option, none, some, List, [], ◌∷◌, join, String, is_empty, if◌then◌else◌,
  arith,
}
use async_ai_document_pipeli.Core.Errors.{
  Exn, app, foreign, AppError, ForeignError, code, http_status,
}
use async_ai_document_pipeli.Core.Errors.Hierarchy.{hierarchy_sound}
use async_ai_document_pipeli.Db.Models.{Json, text, obj, Fields, end, field, arr, Items, nil, item}

-- A response in JSON.
pub record JsonResponse : Type 0 where
  pub status_code : ℕ
  pub content : Json

abbrev one : String → Json → Json
one key value = obj (field key value end)

-- `if correlation_id: payload["correlation_id"] = correlation_id`
unfoldable pub correlation_field : Option String → Fields
correlation_field none = end
correlation_field (some id) = if is_empty id then end else field "correlation_id" (text id) end

-- `if self.details: payload["details"] = self.details`
unfoldable pub details_field : Fields → Fields → Fields
details_field end rest = rest
details_field (field key value fields) rest = field "details" (obj (field key value fields)) rest

-- `to_dict` of an error with its details.
unfoldable pub to_dict : AppError → Fields → Option String → Json
unfolding correlation_field details_field
to_dict error details correlation_id = one "error" (
    obj (
      field "code" (text (code error.class)) (
        field "message" (text error.message)
          (details_field details (correlation_field correlation_id)))))

-- `get_correlation_id()` where the envelope has it in any case.
abbrev pub text_or_null : Option String → Json
text_or_null none = Json.null
text_or_null (some id) = text id

unfoldable pub handle_app_error : AppError → Fields → Option String → JsonResponse
unfolding to_dict
handle_app_error error details correlation_id = record {
  status_code = http_status error.class;
  content = to_dict error details correlation_id;
}

unfoldable pub handle_unexpected_error : ForeignError → Option String → JsonResponse
handle_unexpected_error error correlation_id = record {
  status_code = 500;
  content = one "error" (
      obj (
        field "code" (text "internal_error") (
          field "message" (text "An unexpected error occurred.")
            (field "correlation_id" (text_or_null correlation_id) end))));
}

-- One of `error.errors()`: where it is, and what is wrong.
pub record FieldError : Type 0 where
  pub loc : List String
  pub msg : String

unfoldable pub field_items : List FieldError → Items
field_items [] = nil
field_items (error ∷ errors) =
    item (obj (field "field" (text (join "." error.loc)) (field "message" (text error.msg) end)))
      (field_items errors)

-- The handler of `RequestValidationError`.
unfoldable pub handle_validation_error : List FieldError → Option String → JsonResponse
unfolding field_items
handle_validation_error errors correlation_id = record {
  status_code = 422;
  content = one "error" (
      obj (
        field "code" (text "request_validation_failed") (
          field "message" (text "The request payload failed validation.") (
            field "details" (one "fields" (arr (field_items errors)))
              (field "correlation_id" (text_or_null correlation_id) end)))));
}

-- The handler of Starlette's `HTTPException`, of its status and the text of its detail.
unfoldable pub handle_http_exception : ℕ → String → Option String → JsonResponse
handle_http_exception status_code detail correlation_id = record {
  status_code = status_code;
  content = one "error" (
      obj (
        field "code" (text "http_error") (
          field "message" (text detail)
            (field "correlation_id" (text_or_null correlation_id) end))));
}

-- What a request that raised is answered with: the handler of its class, for an exception that is none of
-- the two of the framework.
unfoldable pub answer_error : Exn → Fields → Option String → JsonResponse
unfolding handle_app_error handle_unexpected_error
answer_error (app error) details correlation_id = handle_app_error error details correlation_id
answer_error (foreign error) details correlation_id = handle_unexpected_error error correlation_id

-- What a response tells of an error that the program does not raise itself.
abbrev pub Hidden : Exn → Type 0
Hidden (app error) = Unit
Hidden (foreign error) =
    (other : ForeignError) (details : Fields) (correlation_id : Option String)
    → answer_error (foreign other) details correlation_id
      ≡ answer_error (foreign error) details correlation_id

-- Every exception that leaves an endpoint and has no handler of the framework is answered with
-- the status of an HTTP error, and the answers to two exceptions of drivers or of the standard
-- library are the same, so that they tell nothing of them.
pub answer_error-IsError :
    (e : Exn) (details : Fields) (correlation_id : Option String)
    → (400 ≤ (answer_error e details correlation_id).status_code)
      × ((answer_error e details correlation_id).status_code < 600)
      × Hidden e
unfolding answer_error
answer_error-IsError (app error) details correlation_id =
    let (_, _, above, below) = hierarchy_sound error.class in (above, below, tt)
answer_error-IsError (foreign error) details correlation_id =
    (omega arith, omega arith, λ other details id. refl)
