-- ===== src/Application/Tests.antt =====
-- Requests to the routes of the application.
use mathlib.Core.List.Memᴰ.{head, tail}
use va_enp_api.Prelude.{ℕ, String, ◌≡◌, refl, false, some, [], ◌∷◌, Memᴰ, inr}
use va_enp_api.Prelude.Int.{◌+ℤ◌}
use va_enp_api.Effects.{Exception, http_exception, ok, err, Exec, pure}
use va_enp_api.Retry.{db_retry, redis_retry}
use va_enp_api.Dao.Lookups.{get_service, get_service_api_keys}
use va_enp_api.Dao.Samples.{Tables, no_tables}
use va_enp_api.Auth.Secrets.{from_row}
use va_enp_api.Auth.Tokens.{get_token_issuer, verify_admin_token}
use va_enp_api.Auth.Service.{
  State, verify_key, validate_service_api_key, try_keys, verify_service_token, find_active_service,
  find_api_keys,
}
use va_enp_api.Auth.Bearer.{Credentials, jwt_bearer, jwt_bearer_admin}
use va_enp_api.Auth.Samples.{collaborators, fresh}
use va_enp_api.Redis.Client.{attempt_token, consume_rate_limit_token}
use va_enp_api.Limits.Strategies.{is_allowed, get_key, calculate_window_expiry}
use va_enp_api.Limits.Limiter.{enforce, allows}
use va_enp_api.Logging.Loggers.{LoggingState, other_handler}
use va_enp_api.Routes.Handlers.{JsonResponse, request_validation_error_handler}
use va_enp_api.Sms.Samples.{tables, known, generous, limiter, noon, credentials}
use va_enp_api.Application.Routers.{
  get, post, admin_bearer, chained, legacy_timed_api_route, timed_api_route, get_notification,
  legacy_notification_post_handler, Route,
}
use va_enp_api.Application.Create.{app}
use va_enp_api.Application.Guards.{administrator, IsLetThrough, serve, serve-IsLetThrough}
use va_enp_api.Application.Responses.{fields, respond, respond_unauthenticated}
use va_enp_api.Application.Answers.{IsResponse, respond-IsResponse}
use va_enp_api.Application.Samples.{fast_api}

abbrev loggers : LoggingState
loggers = record {
  loggers = λ name. record { handlers = other_handler "stream" ∷ []; propagate = false };
  sinks = [];
}

abbrev v3_notification : Route
v3_notification = record {
  method = get;
  path = "/v3/notifications/{notification_id}";
  status_code = 200;
  dependencies = admin_bearer ∷ [];
  route_class = timed_api_route;
  endpoint = get_notification;
}

abbrev sms_route : Route
sms_route = record {
  method = post;
  path = "/v2/notifications/sms";
  status_code = 201;
  dependencies = chained ∷ [];
  route_class = legacy_timed_api_route;
  endpoint = legacy_notification_post_handler;
}

abbrev admin : Credentials
admin = ok (some "not-very-secret")

has_v3_notification : Memᴰ v3_notification (app fast_api false loggers).0.router.routes
unfolding app
has_v3_notification = tail (tail (tail (tail (tail (head refl)))))

has_sms_route : Memᴰ sms_route (app fast_api false loggers).0.router.routes
unfolding app
has_sms_route = tail (tail (tail (tail (tail (tail (tail (tail (tail (head refl)))))))))

abbrev found : Exec (State Tables) Exception String
found = pure "n1"

served :
    serve collaborators generous noon limiter limiter admin v3_notification found (known no_tables)
    ≡ (ok "n1", known no_tables)
unfolding serve jwt_bearer_admin verify_admin_token
served = refl

serve-IsLetThrough_example :
    (s₁ : State Tables) × IsLetThrough collaborators generous noon limiter limiter admin
      (some administrator)
      (known no_tables)
      s₁
    × (found s₁ ≡ (ok "n1", known no_tables))
serve-IsLetThrough_example =
    serve-IsLetThrough collaborators generous noon limiter limiter admin fast_api false loggers
      v3_notification found (known no_tables) (known no_tables) "n1" has_v3_notification served

-- A response is its status.
abbrev of_json : JsonResponse → ℕ
of_json r = r.status_code

abbrev created : Exec (State Tables) Exception ℕ
created = pure 201

abbrev no_header : Credentials
no_header = err (http_exception 403 "Not authenticated")

respond_unauthenticated_example :
    respond collaborators generous noon limiter limiter of_json
      (λ errors. "")
      no_header
      (fields [])
      sms_route
      created
      (fresh tables)
    ≡ (ok 401, fresh tables)
respond_unauthenticated_example =
    respond_unauthenticated collaborators generous noon limiter limiter of_json (λ errors. "")
      fast_api false loggers sms_route no_header [] created (fresh tables) has_sms_route refl
      (inr refl)

responded :
    respond collaborators generous noon limiter limiter of_json
      (λ errors. "")
      credentials
      (fields [])
      sms_route
      created
      (fresh tables)
    ≡ (ok 201, known tables)
unfolding respond jwt_bearer get_token_issuer verify_service_token find_active_service find_api_keys
    get_service get_service_api_keys db_retry try_keys verify_key validate_service_api_key from_row
    enforce allows is_allowed consume_rate_limit_token attempt_token redis_retry get_key
    calculate_window_expiry ◌+ℤ◌
responded = refl

-- The fields have an error, so the function is not run.
invalid_is_refused :
    respond collaborators generous noon limiter limiter of_json
      (λ errors. "")
      credentials
      (fields (record { loc = "body" ∷ []; msg = "Field required"; type = "missing" } ∷ []))
      sms_route
      created
      (fresh tables)
    ≡ (ok 400, known tables)
unfolding respond jwt_bearer get_token_issuer verify_service_token find_active_service find_api_keys
    get_service get_service_api_keys db_retry try_keys verify_key validate_service_api_key from_row
    enforce allows is_allowed consume_rate_limit_token attempt_token redis_retry get_key
    calculate_window_expiry ◌+ℤ◌ request_validation_error_handler
invalid_is_refused = refl

respond-IsResponse_example :
    IsResponse collaborators generous noon limiter limiter of_json
      (λ errors. "")
      credentials
      (fields [])
      sms_route
      created
      (fresh tables)
      201
      (known tables)
respond-IsResponse_example =
    respond-IsResponse collaborators generous noon limiter limiter of_json (λ errors. "") fast_api
      false loggers sms_route credentials created (fresh tables) (known tables) 201 has_sms_route
      refl (fields []) responded
