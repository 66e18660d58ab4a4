-- ===== src/Application/Endpoints.antt =====
-- The SMS endpoint among the routes of the application: app/legacy/v2/notifications/rest.py.
use va_enp_api.Prelude.{
  ℕ, ◌≡◌, refl, ◌∙◌, ap, inl, inr, Bool, [], ◌∷◌, map, Memᴰ, All, All-Mem, subst, arith,
}
use va_enp_api.Effects.{Exception, Exec, of_result, ◌>>=◌, ◌>>◌, Exec-cases}
use va_enp_api.Auth.Service.{State}
use va_enp_api.Auth.Bearer.{Credentials}
use va_enp_api.Redis.Server.{Redis}
use va_enp_api.Limits.Limiter.{RateLimiter}
use va_enp_api.Logging.Loggers.{LoggingState}
use va_enp_api.Sms.Requests.{SmsRequest}
use va_enp_api.Sms.Tasks.{get_sms_task_resolver}
use va_enp_api.Sms.Handler.{SmsCollaborators, Reply, sms_post, chained_depends, post_sms}
use va_enp_api.Application.Routers.{legacy_notification_post_handler, chained, Route, FastApi}
use va_enp_api.Application.Create.{app, all_routes, app-all_routes}
use va_enp_api.Application.Guards.{run_dependency, serve}

-- A chain of one link, and what follows it.
chained_depends-one :
    {S A : Type 0} (dep : Exec S Exception (Unit {0})) (m : Exec S Exception A) (s : S)
    → (chained_depends (dep ∷ []) >> m) s ≡ (dep >> m) s
chained_depends-one dep m s = elim (Exec-cases dep s) [
  | inl (a, s', e) ↦ ground arith
  | inr (x, s', e) ↦ ground arith
]

-- `legacy_notification_post_handler`, with its resolver injected.
abbrev pub sms_endpoint :
    {W : Type 0} → SmsCollaborators W → SmsRequest → Exec (State W) Exception Reply
sms_endpoint c request = of_result (get_sms_task_resolver request) >>= sms_post c request

abbrev IsSms : Route → Type 0
IsSms route =
    (route.endpoint ≡ legacy_notification_post_handler) → route.dependencies ≡ chained ∷ []

all_routes-IsSms : All IsSms all_routes
all_routes-IsSms = (
  λ e. cc,
  (
    λ e. cc,
    (
      λ e. cc,
      (
        λ e. cc,
        (
          λ e. cc,
          (λ e. cc, (λ e. cc, (λ e. cc, (λ e. refl, (λ e. refl, (λ e. cc, (λ e. cc, tt))))))),
        ),
      ),
    ),
  ),
)

module _ {W : Type 0} (c : SmsCollaborators W) (redis : Redis W) (now : W → ℕ)
    (service_limiter daily_limiter : RateLimiter) where
  -- Under each of its paths, the function for SMS requests is served as `post_sms`.
  pub serve-post_sms :
      (f : FastApi) (docs_exist : Bool) (loggers : LoggingState) (route : Route)
      (credentials : Credentials) (request : SmsRequest) (s : State W)
      → Memᴰ route (app f docs_exist loggers).0.router.routes
      → route.endpoint ≡ legacy_notification_post_handler
      → serve c.auth redis now service_limiter daily_limiter credentials route
          (sms_endpoint c request)
          s
        ≡ post_sms c redis now service_limiter daily_limiter credentials request s
  unfolding serve post_sms
  serve-post_sms f docs_exist loggers route credentials request s there named =
      let listed = subst (Memᴰ route) (app-all_routes f docs_exist loggers) there in
      let run = run_dependency c.auth redis now service_limiter daily_limiter credentials in
      let deps = All-Mem IsSms all_routes all_routes-IsSms listed named in
      ap (λ ds. (chained_depends (map run ds) >> sms_endpoint c request) s) deps
      ∙ chained_depends-one (run chained) (sms_endpoint c request) s
