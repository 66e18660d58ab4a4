-- ===== src/Routes/Handlers.antt =====
-- `LegacyTimedAPIRoute` of app/routers.py, apart from its log lines.
use text.Mathlib.Text.{starts_with}
use va_enp_api.Prelude.{
  ℕ, String, ◌||◌, ◌==◌, List, [], ◌∷◌, map, f_string, is_one_of, str_eq, if◌then◌else◌,
}
use va_enp_api.Constants.{no_credentials}
use va_enp_api.Effects.{Result, ok, err, Exec}

-- An entry of `RequestValidationError.errors()`, its location as texts.
pub record ErrorDetail : Type 0 where
  pub loc : List String
  pub msg : String
  pub type : String

-- The exceptions that the route tells apart, and any other.
pub data Failure : Type 0 where
  request_validation_error : List ErrorDetail → Failure
  http_error : (status_code : ℕ) (detail : String) → Failure
  other_failure : Failure

-- A JSON response: its status, and the entries `error` and `message` of its list.
pub record JsonResponse : Type 0 where
  pub status_code : ℕ
  pub errors : List (String × String)

-- `http_exception_handler`
abbrev pub auth_error : ℕ → String → JsonResponse
auth_error status_code detail =
    if str_eq detail "Not authenticated"
    then record { status_code = 401; errors = ("AuthError", no_credentials) ∷ [] }
    else record { status_code = status_code; errors = ("AuthError", detail) ∷ [] }

unfoldable pub http_exception_handler : ℕ → String → JsonResponse
http_exception_handler status_code detail =
    if status_code == 401 || status_code == 403
    then auth_error status_code detail
    else record { status_code = status_code; errors = ("BadRequestError", detail) ∷ [] }

-- `f'{error_location[-1]}: {error_message}'`, of a location with more than one entry.
abbrev located : List String → String → String
located [] message = message
located (only ∷ []) message = message
located (first ∷ last ∷ []) message = f_string (last ∷ ": " ∷ message ∷ [])
located (first ∷ second ∷ third ∷ rest) message = located (second ∷ third ∷ rest) message

-- The message of an error, before those that were seen are left out.
unfoldable pub error_message : ErrorDetail → String
error_message error =
    located error.loc (
      if starts_with error.type "uuid" then "Input should be a valid UUID version 4" else error.msg)

-- The loop, with `seen_messages`.
abbrev pub unseen : List String → List String → List String
unseen seen [] = []
unseen seen (message ∷ messages) =
    let skipped = unseen seen messages in
    let listed = message ∷ unseen (message ∷ seen) messages in
    if is_one_of message seen then skipped else listed

abbrev pub validation_entry : String → String × String
validation_entry message = ("ValidationError", message)

unfoldable pub request_validation_error_handler : List ErrorDetail → JsonResponse
unfolding error_message
request_validation_error_handler errors = record {
  status_code = 400;
  errors = map validation_entry (unseen [] (map error_message errors));
}

-- `custom_route_handler`: a response is the handler's own or one for its exception.
module _ {Response : Type 0} (of_json : JsonResponse → Response) where
  abbrev pub answer : Result Failure Response → Result Failure Response
  answer (ok response) = ok response
  answer (err (request_validation_error errors)) =
      ok (of_json (request_validation_error_handler errors))
  answer (err (http_error status_code detail)) =
      ok (of_json (http_exception_handler status_code detail))
  answer (err other_failure) = err other_failure

  unfoldable pub custom_route_handler :
      {W : Type 0} → Exec W Failure Response → Exec W Failure Response
  unfolding http_exception_handler request_validation_error_handler
  custom_route_handler original w = let (r, w') = original w in (answer r, w')
