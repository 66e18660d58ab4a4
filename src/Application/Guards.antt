-- ===== src/Application/Guards.antt =====
-- What a request to a route of the application has to pass before its function runs: FastAPI calls the
-- dependencies of the route first, in order.
use text.Mathlib.Text.{starts_with}
use va_enp_api.Prelude.{
  ℕ, String, ◌≡◌, Bool, ◌||◌, Option, none, some, List, [], ◌∷◌, map, Memᴰ, All, All-Mem, is_one_of,
  if◌then◌else◌, subst, arith,
}
use va_enp_api.Effects.{Exception, ok, Exec, ◌>>◌, >>=-eq-ok}
use va_enp_api.Auth.Service.{State, Collaborators, on_outside, on_outside-ok}
use va_enp_api.Auth.Bearer.{Credentials, jwt_bearer, jwt_bearer_admin}
use va_enp_api.Auth.Admin.{IsAdmin, jwt_bearer_admin-ok_iff}
use va_enp_api.Auth.Accepted.{HasToken, jwt_bearer-ok_iff}
use va_enp_api.Redis.Server.{Redis}
use va_enp_api.Limits.Limiter.{RateLimiter, enforce}
use va_enp_api.Sms.Handler.{chained_depends}
use va_enp_api.Sms.Endpoint.{nothing_left, passed, chained_depends-Passes}
use va_enp_api.Logging.Loggers.{LoggingState}
use va_enp_api.Application.Routers.{
  Link, bearer, service_limit, daily_limit, Dependency, admin_bearer, chain, chained, Route,
  FastApi,
}
use va_enp_api.Application.Create.{app, all_routes, app-all_routes}

-- Who may call a path: anybody, the administrator, or a service within its limits.
pub data Callers : Type 0 where
  anybody administrator service : Callers

-- The paths that are open: the greeting, and the pages of FastAPI itself.
abbrev pub open_paths : List String
open_paths = "/enp" ∷ "/openapi.json" ∷ "/docs" ∷ "/docs/oauth2-redirect" ∷ "/redoc" ∷ []

-- The paths of the application's routes.
abbrev pub callers_of : String → Option Callers
callers_of path =
    if is_one_of path open_paths
    then some anybody
    else if starts_with path "/v3/" || starts_with path "/legacy/notifications/"
    then some administrator
    else if starts_with path "/v2/notifications/" || starts_with path "/legacy/v2/notifications/"
    then some service
    else none

module _ {W : Type 0} (c : Collaborators W) (redis : Redis W) (now : W → ℕ)
    (service_limiter daily_limiter : RateLimiter) (credentials : Credentials) where
  abbrev pub run_link : Link → Exec (State W) Exception (Unit {0})
  run_link bearer = jwt_bearer c credentials
  run_link service_limit = enforce redis c.tenacity now service_limiter
  run_link daily_limit = enforce redis c.tenacity now daily_limiter

  abbrev pub run_dependency : Dependency → Exec (State W) Exception (Unit {0})
  run_dependency admin_bearer = on_outside (jwt_bearer_admin c credentials)
  run_dependency (chain links) = chained_depends (map run_link links)

  unfoldable pub serve :
      {A : Type 0} → Route → Exec (State W) Exception A → Exec (State W) Exception A
  serve route endpoint = chained_depends (map run_dependency route.dependencies) >> endpoint

  -- The way of a service's request to the function.
  pub record IsWithinLimits (s s' : State W) : Type 0 where
    pub s₁ : State W
    pub s₂ : State W
    pub authenticated : HasToken c credentials s s₁
    pub within_limit : enforce redis c.tenacity now service_limiter s₁ ≡ (ok tt, s₂)
    pub within_daily_limit : enforce redis c.tenacity now daily_limiter s₂ ≡ (ok tt, s')

  -- A request that was let through: what it was checked for, and the state in which it goes on.
  abbrev pub IsLetThrough : Option Callers → State W → State W → Type 0
  IsLetThrough none s s' = ⊥
  IsLetThrough (some anybody) s s' = s ≡ s'
  IsLetThrough (some administrator) s s' = IsAdmin c credentials s.outside × (s ≡ s')
  IsLetThrough (some service) s s' = IsWithinLimits s s'

  abbrev IsGuarded : Route → Type 0
  IsGuarded route =
      (s s' : State W)
      → chained_depends (map run_dependency route.dependencies) s ≡ (ok tt, s')
      → IsLetThrough (callers_of route.path) s s'

  admin_bearer-IsAdmin :
      (s s' : State W)
      → chained_depends (map run_dependency (admin_bearer ∷ [])) s ≡ (ok tt, s')
      → IsAdmin c credentials s.outside × (s ≡ s')
  admin_bearer-IsAdmin s s' h =
      elim (chained_depends-Passes (map run_dependency (admin_bearer ∷ [])) s s' h) [
        | passed e nothing_left ↦
            let (w, e', same) = on_outside-ok (jwt_bearer_admin c credentials) s e in
            let (admin, unchanged) = (jwt_bearer_admin-ok_iff c credentials s.outside w).0 e' in
            (admin, ground arith)
      ]

  chained-IsWithinLimits :
      (s s' : State W)
      → chained_depends (map run_dependency (chained ∷ [])) s ≡ (ok tt, s')
      → IsWithinLimits s s'
  chained-IsWithinLimits s s' h =
      elim (chained_depends-Passes (map run_dependency (chained ∷ [])) s s' h) [
        | passed {s₁ = s₃} e nothing_left ↦
            elim (chained_depends-Passes (map run_link (bearer ∷ service_limit ∷ daily_limit ∷ []))
              s s₃ e) [
                | passed {s₁ = s₁} a (passed {s₁ = s₂} b (passed d nothing_left)) ↦ record {
                  s₁ = s₁;
                  s₂ = s₂;
                  authenticated = (jwt_bearer-ok_iff c credentials s s₁).0 a;
                  within_limit = b;
                  within_daily_limit = d;
                }
              ]
      ]

  unchecked : (s s' : State W) → chained_depends [] s ≡ (ok tt, s') → s ≡ s'
  unchecked s s' h = ground arith

  all_routes-IsGuarded : All IsGuarded all_routes
  all_routes-IsGuarded = (
    unchecked,
    (
      unchecked,
      (
        unchecked,
        (
          unchecked,
          (
            admin_bearer-IsAdmin,
            (
              admin_bearer-IsAdmin,
              (
                admin_bearer-IsAdmin,
                (
                  chained-IsWithinLimits,
                  (
                    chained-IsWithinLimits,
                    (chained-IsWithinLimits, (unchecked, (admin_bearer-IsAdmin, tt))),
                  ),
                ),
              ),
            ),
          ),
        ),
      ),
    ),
  )

  -- Whatever route of the application's router a request is for, if the function under it returned, then it ran
  -- after the request was let through: as the administrator's under `/v3/` and
  -- `/legacy/notifications/`, and as a service's that passed its limiter and the daily one under
  -- `/v2/notifications/` and `/legacy/v2/notifications/`. Open to anybody are the routes `/enp` and
  -- the four pages of FastAPI about the interface; no route has another path. The mounted directory
  -- `/mkdocs` is no route with a function.
  pub serve-IsLetThrough :
      (f : FastApi) (docs_exist : Bool) (loggers : LoggingState) (route : Route) {A : Type 0}
      (endpoint : Exec (State W) Exception A) (s s' : State W) (a : A)
      → Memᴰ route (app f docs_exist loggers).0.router.routes
      → serve route endpoint s ≡ (ok a, s')
      → (s₁ : State W) × IsLetThrough (callers_of route.path) s s₁ × (endpoint s₁ ≡ (ok a, s'))
  unfolding serve
  serve-IsLetThrough f docs_exist loggers route endpoint s s' a there h =
      let listed = subst (Memᴰ route) (app-all_routes f docs_exist loggers) there in
      let (_, s₁, e, rest) =
        >>=-eq-ok (chained_depends (map run_dependency route.dependencies)) (λ _. endpoint) s h in
      (s₁, All-Mem IsGuarded all_routes all_routes-IsGuarded listed s s₁ e, rest)
