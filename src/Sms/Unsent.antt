-- ===== src/Sms/Unsent.antt =====
-- What a request for a push notification comes to: the endpoint of
-- app/legacy/v2/notifications/rest.py and its background task.
use va_enp_api.Prelude.{ℕ, String, ◌≡◌, refl, subst, inl, inr, some, [], ◌∷◌, arith, Option-cases}
use va_enp_api.Effects.{not_implemented_error, ok, err, item, >>=-eq-ok, Result-cases}
use va_enp_api.Auth.Service.{State, Collaborators}
use va_enp_api.Auth.Bearer.{Credentials, jwt_bearer}
use va_enp_api.Redis.Server.{Redis}
use va_enp_api.Limits.Limiter.{RateLimiter, enforce}
use va_enp_api.Providers.Sns.{SnsClient, AwsSettings}
use va_enp_api.State.{EnpState}
use va_enp_api.Sms.Handler.{chained_depends}
use va_enp_api.Sms.Endpoint.{Passes, chained_depends-Passes}
use va_enp_api.Sms.Push.{
  PushRequest, PushTask, PushReply, push_task_for, reply_for, send_push_notification_helper,
  create_push_notification, post_push,
}

module _ {W Manager : Type 0} (c : Collaborators W) (state : EnpState Manager) (redis : Redis W)
    (now : W → ℕ) (service_limiter daily_limiter : RateLimiter) (client : SnsClient W)
    (settings : AwsSettings) where
  -- The way of a request to its answer, and its background task.
  pub record IsUnsent (credentials : Credentials) (request : PushRequest) (s : State W)
      (reply : PushReply) (s' : State W) : Type 0 where
    pub template_id : String
    pub task : PushTask
    pub passed :
        Passes
          (jwt_bearer c credentials
            ∷ enforce redis c.tenacity now service_limiter
            ∷ enforce redis c.tenacity now daily_limiter
            ∷ [])
          s
          s'
    pub parsed : c.uuid request.template_id ≡ some template_id
    pub follows : reply.background_tasks ≡ task ∷ []
    pub fails :
        (w : W)
        → send_push_notification_helper c.tenacity client settings task w
          ≡ (err (not_implemented_error "get_arn_from_icn has not been implemented."), w)

  -- A request for a push notification is answered only after it was authenticated and passed both
  -- limiters, in this order, and if its template's identifier is a UUID; and the one task that
  -- follows the answer raises `NotImplementedError` in every state and changes nothing, so that
  -- nothing is sent.
  pub post_push-IsUnsent :
      (credentials : Credentials) (request : PushRequest) (s s' : State W) (reply : PushReply)
      → post_push c state redis now service_limiter daily_limiter credentials request s
        ≡ (ok reply, s')
      → IsUnsent credentials request s reply s'
  unfolding post_push create_push_notification send_push_notification_helper
  post_push-IsUnsent credentials request s s' reply h =
      let deps =
        jwt_bearer c credentials
        ∷ enforce redis c.tenacity now service_limiter
        ∷ enforce redis c.tenacity now daily_limiter
        ∷ [] in
      let (_, s₁, e, rest) =
        >>=-eq-ok (chained_depends deps) (λ _. create_push_notification c state request) s h in
      elim (Option-cases (c.uuid request.template_id)) [
        | inl missing ↦ absurd (ground arith)
        | inr (template_id, parsed) ↦ elim (Result-cases (item "aws" state.providers)) [
          | inr (x, gone) ↦ absurd (ground arith)
          | inl (provider, known) ↦
              let same : reply_for request provider ≡ reply = ground arith in
              let stays : s₁ ≡ s' = ground arith in
              let passed = subst (Passes deps s) stays (chained_depends-Passes deps s s₁ e) in
              subst (λ r. IsUnsent credentials request s r s') same
                (record {
                  template_id = template_id;
                  task = push_task_for request provider;
                  passed = passed;
                  parsed = parsed;
                  follows = refl;
                  fails = λ w. refl;
                })
        ]
      ]
