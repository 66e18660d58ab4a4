-- ===== src/Application/Answers.antt =====
-- What a response of the routes for services tells: app/routers.py and
-- app/legacy/v2/notifications/rest.py.
use va_enp_api.Prelude.{
  ℕ, String, ◌≡◌, refl, sym, ◌∙◌, ap, ◌⊎◌, inl, inr, Bool, some, List, [], ◌∷◌, Memᴰ, All-Mem,
  subst, arith,
}
use va_enp_api.Effects.{Exception, http_exception, Result, ok, err, Exec, pure, Exec-cases}
use va_enp_api.Auth.Service.{State, Collaborators}
use va_enp_api.Auth.Bearer.{Credentials}
use va_enp_api.Redis.Server.{Redis}
use va_enp_api.Limits.Limiter.{RateLimiter}
use va_enp_api.Logging.Loggers.{LoggingState}
use va_enp_api.Routes.Handlers.{
  ErrorDetail, Failure, other_failure, request_validation_error_handler, JsonResponse,
  http_exception_handler, answer, custom_route_handler,
}
use va_enp_api.Application.Routers.{Route, FastApi}
use va_enp_api.Application.Create.{app, all_routes, app-all_routes}
use va_enp_api.Application.Guards.{
  service, callers_of, serve, IsWithinLimits, IsLetThrough, serve-IsLetThrough,
}
use va_enp_api.Application.Responses.{
  Reading, unreadable, fields, all_routes-IsForServices, IsForServices, failure_of, route_handler,
  original_handler, respond,
}

http_exception-cases :
    (x : Exception)
    → ((status_code : ℕ) × (detail : String) × (x ≡ http_exception status_code detail))
      ⊎ (failure_of x ≡ other_failure)
http_exception-cases (http_exception status_code detail) = inl (status_code, detail, refl)
http_exception-cases _ = inr refl

module _ {W Response : Type 0} (c : Collaborators W) (redis : Redis W) (now : W → ℕ)
    (service_limiter daily_limiter : RateLimiter) (of_json : JsonResponse → Response)
    (show : List ErrorDetail → String) where
  abbrev run :
      {A : Type 0} → Credentials → Route → Exec (State W) Exception A → Exec (State W) Exception A
  run credentials route m = serve c redis now service_limiter daily_limiter credentials route m

  -- How a request for a path of the services comes to its response: its body could not be read; the
  -- function returned the response, after the request was let through; the request was let through
  -- but its fields had errors; or an `HTTPException` was raised, by what comes before the function or
  -- by it.
  pub data IsResponse (credentials : Credentials) (reading : Reading) (route : Route)
      (endpoint : Exec (State W) Exception Response) (s : State W) (response : Response)
      (s' : State W) : Type 0 where
    by_reading :
        (failure : Failure)
        → reading ≡ unreadable failure
        → answer of_json (err failure) ≡ ok response
        → s ≡ s'
        → IsResponse credentials reading route endpoint s response s'
    by_endpoint :
        (s₁ : State W)
        → reading ≡ fields []
        → IsWithinLimits c redis now service_limiter daily_limiter credentials s s₁
        → endpoint s₁ ≡ (ok response, s')
        → IsResponse credentials reading route endpoint s response s'
    by_validation :
        (error : ErrorDetail) (errors : List ErrorDetail)
        → reading ≡ fields (error ∷ errors)
        → IsWithinLimits c redis now service_limiter daily_limiter credentials s s'
        → response ≡ of_json (request_validation_error_handler (error ∷ errors))
        → IsResponse credentials reading route endpoint s response s'
    by_refusal :
        (error : ErrorDetail) (errors : List ErrorDetail) (status_code : ℕ) (detail : String)
        → reading ≡ fields (error ∷ errors)
        → run credentials route (pure {A = Unit {0}} tt) s
          ≡ (err (http_exception status_code detail), s')
        → response ≡ of_json (http_exception_handler status_code detail)
        → IsResponse credentials reading route endpoint s response s'
    by_exception :
        (status_code : ℕ) (detail : String)
        → reading ≡ fields []
        → run credentials route endpoint s ≡ (err (http_exception status_code detail), s')
        → response ≡ of_json (http_exception_handler status_code detail)
        → IsResponse credentials reading route endpoint s response s'

  -- Only an `HTTPException` of what was run comes to a response.
  answered_exception :
      {A : Type 0} (m : Exec (State W) Exception A) (s s₂ s' : State W) (x : Exception)
      (response : Response)
      → m s ≡ (err x, s₂)
      → ◌≡◌ {A = Result Failure Response × State W}
          (answer of_json (err (failure_of x)), s₂)
          (ok response, s')
      → (status_code : ℕ) × (detail : String) × (m s
          ≡ (err (http_exception status_code detail), s'))
        × (response ≡ of_json (http_exception_handler status_code detail))
  answered_exception m s s₂ s' x response e h = elim (http_exception-cases x) [
    | inl (status_code, detail, named) ↦
        let answered = ap (λ y. (answer of_json (err (failure_of y)), s₂)) (sym named) ∙ h in
        (status_code, detail, ground arith, ground arith)
    | inr other ↦
        let nothing = ap (λ k. (answer of_json (err k), s₂)) (sym other) ∙ h in
        absurd (ground arith)
  ]

  module _ (f : FastApi) (docs_exist : Bool) (loggers : LoggingState) (route : Route)
      (credentials : Credentials) (endpoint : Exec (State W) Exception Response) (s s' : State W)
      (response : Response) (there : Memᴰ route (app f docs_exist loggers).0.router.routes)
      (path : callers_of route.path ≡ some service) where
    let_through :
        {A : Type 0} (m : Exec (State W) Exception A) (s₂ : State W) (a : A)
        → run credentials route m s ≡ (ok a, s₂)
        → (s₁ : State W) × IsWithinLimits c redis now service_limiter daily_limiter credentials s s₁
          × (m s₁ ≡ (ok a, s₂))
    let_through m s₂ a served =
        let (s₁, passed, returned) =
          serve-IsLetThrough c redis now service_limiter daily_limiter credentials f docs_exist
            loggers route m s s₂ a there served in
        (
          s₁,
          subst (λ k. IsLetThrough c redis now service_limiter daily_limiter credentials k s s₁)
              path passed,
          returned,
        )

    handled-IsResponse :
        (reading : Reading)
        → custom_route_handler of_json
            (original_handler c redis now service_limiter daily_limiter of_json show credentials
              reading route endpoint)
            s
          ≡ (ok response, s')
        → IsResponse credentials reading route endpoint s response s'
    unfolding custom_route_handler
    handled-IsResponse (unreadable failure) h =
        by_reading failure refl (ground arith) (ground arith)
    handled-IsResponse (fields []) h = elim (Exec-cases (run credentials route endpoint) s) [
      | inl (a, s₂, e) ↦
          let served : run credentials route endpoint s ≡ (ok response, s') = ground arith in
          let (s₁, passed, returned) = let_through endpoint s' response served in
          by_endpoint s₁ refl passed returned
      | inr (x, s₂, e) ↦
          let (status_code, detail, raised, answered) =
            answered_exception (run credentials route endpoint) s s₂ s' x response e
              (ground arith) in
          by_exception status_code detail refl raised answered
    ]
    handled-IsResponse (fields (error ∷ errors)) h =
        let checks = run credentials route (pure {A = Unit {0}} tt) in
        elim (Exec-cases checks s) [
          | inl (a, s₂, e) ↦
              let (s₁, passed, returned) = let_through (pure {A = Unit {0}} tt) s₂ a e in
              let same : s₁ ≡ s' = ground arith in
              by_validation error errors refl
                (subst (IsWithinLimits c redis now service_limiter daily_limiter credentials s) same
                  passed)
                (ground arith)
          | inr (x, s₂, e) ↦
              let (status_code, detail, raised, answered) =
                answered_exception checks s s₂ s' x response e (ground arith) in
              by_refusal error errors status_code detail refl raised answered
        ]

    -- If a route for services answers a request, then its body could not be read and the response is
    -- the one for that; or the request passed the bearer's check and both limiters, and the function
    -- under the route returned this response, or the request's fields had errors and the response is
    -- that of `request_validation_error_handler` for them; or an `HTTPException` was raised on the
    -- way and the response is the one of `http_exception_handler` for its status and detail. No other
    -- exception gets a response.
    pub respond-IsResponse :
        (reading : Reading)
        → respond c redis now service_limiter daily_limiter of_json show credentials reading route
            endpoint s
          ≡ (ok response, s')
        → IsResponse credentials reading route endpoint s response s'
    unfolding respond
    respond-IsResponse reading h =
        let listed = subst (Memᴰ route) (app-all_routes f docs_exist loggers) there in
        let (deps, class) = All-Mem IsForServices all_routes all_routes-IsForServices listed path in
        let original =
          original_handler c redis now service_limiter daily_limiter of_json show credentials
            reading route endpoint in
        handled-IsResponse reading (
          ap
            (λ k. route_handler c redis now service_limiter daily_limiter of_json show k original s)
            (sym class)
          ∙ h)
