-- ===== src/Routes/Tests.antt =====
-- Runs of the handlers of failed requests.
use va_enp_api.Prelude.{String, ◌≡◌, refl, List, [], ◌∷◌, map, is_one_of}
use va_enp_api.Constants.{no_credentials}
use va_enp_api.Routes.Handlers.{
  ErrorDetail, error_message, validation_entry, http_exception_handler,
  request_validation_error_handler,
}
use va_enp_api.Routes.Messages.{Distinct, request_validation_error_handler-Distinct}

abbrev two_errors : List ErrorDetail
two_errors =
    record { loc = "body" ∷ "id" ∷ []; msg = "x"; type = "uuid_parsing" }
    ∷ record { loc = "body" ∷ "id" ∷ []; msg = "y"; type = "uuid_version" }
    ∷ []

one_message : request_validation_error_handler two_errors ≡ record {
  status_code = 400;
  errors = ("ValidationError", "id: Input should be a valid UUID version 4") ∷ [];
}
unfolding request_validation_error_handler error_message
one_message = refl

unauthenticated :
    http_exception_handler 403 "Not authenticated"
    ≡ record { status_code = 401; errors = ("AuthError", no_credentials) ∷ [] }
unfolding http_exception_handler
unauthenticated = refl

two_errors_apart :
    (messages : List String) × (request_validation_error_handler two_errors
      ≡ record { status_code = 400; errors = map validation_entry messages })
    × Distinct messages
    × ((m : String) → is_one_of m messages ≡ is_one_of m (map error_message two_errors))
two_errors_apart = request_validation_error_handler-Distinct two_errors
