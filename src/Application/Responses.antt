-- ===== src/Application/Responses.antt =====
-- How a route answers: `LegacyTimedAPIRoute` and `TimedAPIRoute` of app/routers.py around the function
-- and its dependencies, and what a service without credentials is answered.
use va_enp_api.Prelude.{
  ℕ, String, ◌≡◌, refl, ◌∙◌, ap, ◌⊎◌, inl, inr, Bool, none, some, List, [], ◌∷◌, map, Memᴰ, All,
  All-Mem, subst, arith,
}
use va_enp_api.Constants.{no_credentials}
use va_enp_api.Effects.{Exception, http_exception, Result, ok, err, Exec, raise, pure, catch, ◌>>◌}
use va_enp_api.Auth.Service.{State, Collaborators}
use va_enp_api.Auth.Bearer.{Credentials, jwt_bearer}
use va_enp_api.Redis.Server.{Redis}
use va_enp_api.Limits.Limiter.{RateLimiter}
use va_enp_api.Logging.Loggers.{LoggingState}
use va_enp_api.Routes.Handlers.{
  ErrorDetail, Failure, request_validation_error, http_error, other_failure, JsonResponse,
  http_exception_handler, answer, custom_route_handler,
}
use va_enp_api.Sms.Handler.{chained_depends}
use va_enp_api.V3.Endpoints.{timed_route_handler}
use va_enp_api.Application.Routers.{
  RouteClass, legacy_timed_api_route, timed_api_route, api_route, chained, Route, FastApi,
}
use va_enp_api.Application.Create.{app, all_routes, app-all_routes}
use va_enp_api.Application.Guards.{service, callers_of, run_dependency, serve}

abbrev pub IsForServices : Route → Type 0
IsForServices route =
    (callers_of route.path ≡ some service)
    → (route.dependencies ≡ chained ∷ []) × (route.route_class ≡ legacy_timed_api_route)

pub all_routes-IsForServices : All IsForServices all_routes
all_routes-IsForServices = (
  λ e. cc,
  (
    λ e. cc,
    (
      λ e. cc,
      (
        λ e. cc,
        (
          λ e. cc,
          (
            λ e. cc,
            (
              λ e. cc,
              (
                λ e. (refl, refl),
                (λ e. (refl, refl), (λ e. (refl, refl), (λ e. cc, (λ e. cc, tt)))),
              ),
            ),
          ),
        ),
      ),
    ),
  ),
)

-- What a request without credentials is answered.
abbrev pub unauthorized : JsonResponse
unauthorized = record { status_code = 401; errors = ("AuthError", no_credentials) ∷ [] }

-- What FastAPI makes of a request's body and fields, as it documents: a body that cannot be read fails
-- before the dependencies; the errors of the fields are collected while the dependencies run, and are
-- raised after them, before the function.
pub data Reading : Type 0 where
  unreadable : Failure → Reading
  fields : List ErrorDetail → Reading

-- An exception of a dependency or of the function, as the routes of app/routers.py tell them apart.
abbrev pub failure_of : Exception → Failure
failure_of (http_exception status_code detail) = http_error status_code detail
failure_of _ = other_failure

-- What `HTTPBearer` makes of a request without a header: it raises, or returns nothing.
abbrev pub AreMissing : Credentials → Type 0
AreMissing credentials =
    (credentials ≡ ok none) ⊎ (credentials ≡ err (http_exception 403 "Not authenticated"))

module _ {W Response : Type 0} (c : Collaborators W) (redis : Redis W) (now : W → ℕ)
    (service_limiter daily_limiter : RateLimiter) (of_json : JsonResponse → Response)
    (show : List ErrorDetail → String) where
  -- The handler of a route, around what its class takes over from FastAPI.
  abbrev pub route_handler :
      RouteClass → Exec (State W) Failure Response → Exec (State W) Failure Response
  route_handler legacy_timed_api_route original = custom_route_handler of_json original
  route_handler timed_api_route original = timed_route_handler show original
  route_handler api_route original = original

  abbrev pub original_handler :
      Credentials
      → Reading
      → Route
      → Exec (State W) Exception Response
      → Exec (State W) Failure Response
  original_handler credentials (unreadable failure) route endpoint = raise failure
  original_handler credentials (fields []) route endpoint =
      catch (serve c redis now service_limiter daily_limiter credentials route endpoint)
        (λ x. raise (failure_of x))
  original_handler credentials (fields (error ∷ errors)) route endpoint =
      catch
        (serve c redis now service_limiter daily_limiter credentials route (pure {A = Unit {0}} tt))
        (λ x. raise (failure_of x))
      >> raise (request_validation_error (error ∷ errors))

  -- A request as its route answers it.
  unfoldable pub respond :
      Credentials
      → Reading
      → Route
      → Exec (State W) Exception Response
      → Exec (State W) Failure Response
  unfolding serve custom_route_handler timed_route_handler
  respond credentials reading route endpoint =
      route_handler route.route_class (original_handler credentials reading route endpoint)

  jwt_bearer_missing :
      (credentials : Credentials) (s : State W)
      → AreMissing credentials
      → (x : Exception) × (jwt_bearer c credentials s ≡ (err x, s))
        × (answer of_json (err (failure_of x)) ≡ ok (of_json unauthorized))
  unfolding jwt_bearer http_exception_handler
  jwt_bearer_missing credentials s (inl e) = (http_exception 401 no_credentials, rw e refl, refl)
  jwt_bearer_missing credentials s (inr e) =
      (http_exception 403 "Not authenticated", rw e refl, refl)

  -- A request that is refused before its function ends so, whatever its fields are.
  refused_handler :
      (credentials : Credentials) (errors : List ErrorDetail) (route : Route)
      (endpoint : Exec (State W) Exception Response) (s : State W) (x : Exception)
      → chained_depends
          (map
            (run_dependency c redis now service_limiter daily_limiter credentials)
            route.dependencies)
          s
        ≡ (err x, s)
      → original_handler credentials (fields errors) route endpoint s ≡ (err (failure_of x), s)
  unfolding serve
  refused_handler credentials [] route endpoint s x refused = ground arith
  refused_handler credentials (error ∷ errors) route endpoint s x refused = ground arith

  -- A request for a path of the services whose header is missing and whose body could be read is
  -- answered with status 401 and the message for it, whatever the errors of its fields are and
  -- whatever the function does, and nothing happens.
  pub respond_unauthenticated :
      (f : FastApi) (docs_exist : Bool) (loggers : LoggingState) (route : Route)
      (credentials : Credentials) (errors : List ErrorDetail)
      (endpoint : Exec (State W) Exception Response) (s : State W)
      → Memᴰ route (app f docs_exist loggers).0.router.routes
      → callers_of route.path ≡ some service
      → AreMissing credentials
      → respond credentials (fields errors) route endpoint s ≡ (ok (of_json unauthorized), s)
  unfolding respond custom_route_handler
  respond_unauthenticated f docs_exist loggers route credentials errors endpoint s there path
        missing =
      let listed = subst (Memᴰ route) (app-all_routes f docs_exist loggers) there in
      let (deps, class) = All-Mem IsForServices all_routes all_routes-IsForServices listed path in
      let run = run_dependency c redis now service_limiter daily_limiter credentials in
      let (x, e, answered) = jwt_bearer_missing credentials s missing in
      let refused : chained_depends (map run (chained ∷ [])) s ≡ (err x, s) = ground arith in
      let stopped =
        refused_handler credentials errors route endpoint s x
          (ap (λ ds. chained_depends (map run ds) s) deps ∙ refused) in
      ap (λ k. route_handler k (original_handler credentials (fields errors) route endpoint) s)
        class
      ∙ ap (λ (o : Result Failure Response × State W). (answer of_json o.0, o.1)) stopped
      ∙ ap (λ r. (r, s)) answered
