-- ===== src/Sms/Endpoint.antt =====
-- What a request that is answered by the SMS endpoints has passed: the dependencies of their
-- routers and the handler, app/legacy/v2/notifications/rest.py.
use va_enp_api.Prelude.{ℕ, ◌≡◌, subst, [], ◌∷◌, List, arith}
use va_enp_api.Effects.{Exception, ok, Exec, of_result, ◌>>=◌, >>=-eq-ok}
use va_enp_api.Auth.Service.{State}
use va_enp_api.Auth.Bearer.{Credentials, jwt_bearer}
use va_enp_api.Auth.Accepted.{HasToken, jwt_bearer-ok_iff}
use va_enp_api.Redis.Server.{Redis}
use va_enp_api.Limits.Limiter.{RateLimiter, enforce}
use va_enp_api.Sms.Requests.{SmsRequest}
use va_enp_api.Sms.Tasks.{SmsTaskResolver, get_sms_task_resolver}
use va_enp_api.Sms.Handler.{SmsCollaborators, Reply, sms_post, chained_depends, post_sms}
use va_enp_api.Sms.Delivery.{IsAnswered, sms_post-IsAnswered}

-- What a chain of dependencies that returns went through, in order.
pub data Passes {S : Type 0} : List (Exec S Exception (Unit {0})) → S → S → Type 0 where
  nothing_left : {s : S} → Passes [] s s
  passed :
      {dep : Exec S Exception (Unit {0})} {deps : List (Exec S Exception (Unit {0}))} {s s₁ s' : S}
      → dep s ≡ (ok tt, s₁)
      → Passes deps s₁ s'
      → Passes (dep ∷ deps) s s'

-- A chain of dependencies returns only if each returned, run in the given order on the state that
-- the one before it left.
pub chained_depends-Passes :
    {S : Type 0} (deps : List (Exec S Exception (Unit {0}))) (s s' : S)
    → chained_depends deps s ≡ (ok tt, s')
    → Passes deps s s'
chained_depends-Passes [] s s' h =
    let same : s ≡ s' = ground arith in subst (Passes [] s) same nothing_left
chained_depends-Passes (dep ∷ deps) s s' h =
    let (_, s₁, e, rest) = >>=-eq-ok dep (λ _. chained_depends deps) s h in
    passed e (chained_depends-Passes deps s₁ s' rest)

module _ {W : Type 0} (c : SmsCollaborators W) (redis : Redis W) (now : W → ℕ)
    (service_limiter daily_limiter : RateLimiter) where
  -- The way of a request to its answer.
  pub record IsAdmitted (credentials : Credentials) (request : SmsRequest) (s : State W)
      (reply : Reply) (s' : State W) : Type 0 where
    pub s₁ : State W
    pub s₂ : State W
    pub s₃ : State W
    pub resolver : SmsTaskResolver
    pub authenticated : HasToken c.auth credentials s s₁
    pub within_limit : enforce redis c.auth.tenacity now service_limiter s₁ ≡ (ok tt, s₂)
    pub within_daily_limit : enforce redis c.auth.tenacity now daily_limiter s₂ ≡ (ok tt, s₃)
    pub resolved : get_sms_task_resolver request ≡ ok resolver
    pub answered : IsAnswered c request resolver s₃ reply s'

  -- A request is answered only after it was authenticated, passed the limiter of its service and then
  -- the daily limiter, and was handled.
  pub post_sms-IsAdmitted :
      (credentials : Credentials) (request : SmsRequest) (s s' : State W) (reply : Reply)
      → post_sms c redis now service_limiter daily_limiter credentials request s ≡ (ok reply, s')
      → IsAdmitted credentials request s reply s'
  unfolding post_sms
  post_sms-IsAdmitted credentials request s s' reply h =
      let deps =
        jwt_bearer c.auth credentials
        ∷ enforce redis c.auth.tenacity now service_limiter
        ∷ enforce redis c.auth.tenacity now daily_limiter
        ∷ [] in
      let (_, s₃, e, rest) =
        >>=-eq-ok (chained_depends deps)
          (λ _. of_result (get_sms_task_resolver request) >>= sms_post c request) s h in
      let (resolver, s₄, r, handled) =
        >>=-eq-ok (of_result (get_sms_task_resolver request)) (sms_post c request) s₃ rest in
      let same : s₄ ≡ s₃ = ground arith in
      elim (chained_depends-Passes deps s s₃ e) [
        | passed {s₁ = s₁} a (passed {s₁ = s₂} b (passed d nothing_left)) ↦ record {
          s₁ = s₁;
          s₂ = s₂;
          s₃ = s₃;
          resolver = resolver;
          authenticated = (jwt_bearer-ok_iff c.auth credentials s s₁).0 a;
          within_limit = b;
          within_daily_limit = d;
          resolved = ground arith;
          answered =
              subst (λ z. IsAnswered c request resolver z reply s') same
                (sms_post-IsAnswered c request resolver s₄ s' reply handled);
        }
      ]
