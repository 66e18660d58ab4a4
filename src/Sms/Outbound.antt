-- ===== src/Sms/Outbound.antt =====
-- From an accepted SMS request to the queue: the endpoint, and its background task
-- `enqueue_notification_tasks` of app/legacy/v2/notifications/utils.py.
use Prim.Native.Char.{Char}
use va_enp_api.Prelude.{ℕ, String, Bool, ◌≡◌, refl, sym, ◌∙◌, ap, subst, List, [], ◌∷◌, arith}
use va_enp_api.Effects.{Exception, Result, ok, Exec}
use va_enp_api.Cache.{AlruCache}
use va_enp_api.Auth.Service.{State}
use va_enp_api.Auth.Bearer.{Credentials}
use va_enp_api.Redis.Server.{Redis}
use va_enp_api.Limits.Limiter.{RateLimiter}
use va_enp_api.Sms.Requests.{SmsRequest, validated}
use va_enp_api.Sms.Tasks.{Task, get_tasks, get_sms_task_resolver}
use va_enp_api.Sms.Chains.{needed, validated-tasks}
use va_enp_api.Sms.Handler.{SmsCollaborators, Reply, post_sms}
use va_enp_api.Sms.Endpoint.{post_sms-IsAdmitted}
use va_enp_api.Sqs.Envelopes.{Encoding}
use va_enp_api.Sqs.Producer.{SqsClient, enqueue_message}
use va_enp_api.Sqs.Sent.{IsHandedOver, enqueue_message-IsHandedOver}

ok_inj : {X A : Type 0} (r : Result X A) {a b : A} → r ≡ ok a → r ≡ ok b → a ≡ b
ok_inj r h k = cc

module _ {W : Type 0} (c : SmsCollaborators W) (client : SqsClient W)
    (queue_urls : AlruCache W (ℕ × String) String) (new_producer : W → ℕ × W)
    (encoding : Encoding) where
  -- `SqsAsyncProducer()` is a new object, which its cache tells from others.
  unfoldable pub enqueue_notification_tasks : List Task → Exec W Exception (Unit {0})
  unfolding enqueue_message
  enqueue_notification_tasks tasks w =
      let (producer, w₁) = new_producer w in
      enqueue_message c.auth.tenacity client queue_urls producer encoding c.auth.uuid4 tasks w₁

  -- What became of tasks, of which there was one at least.
  pub record AreQueued (tasks : List Task) (w w' : W) : Type 0 where
    pub first : Task
    pub others : List Task
    pub producer : ℕ
    pub w₁ : W
    pub all : tasks ≡ first ∷ others
    pub fresh : new_producer w ≡ (producer, w₁)
    pub handed_over :
        IsHandedOver c.auth.tenacity client queue_urls producer encoding c.auth.uuid4 first others
          w₁ w'

  enqueue_notification_tasks-AreQueued :
      (tasks : List Task) (w w' : W)
      → enqueue_notification_tasks tasks w ≡ (ok tt, w')
      → AreQueued tasks w w'
  unfolding enqueue_notification_tasks
  enqueue_notification_tasks-AreQueued [] w w' h = absurd (ground arith)
  enqueue_notification_tasks-AreQueued (first ∷ others) w w' h =
      let (producer, w₁) = new_producer w in
      record {
        first = first;
        others = others;
        producer = producer;
        w₁ = w₁;
        all = refl;
        fresh = refl;
        handed_over =
            enqueue_message-IsHandedOver c.auth.tenacity client queue_urls producer encoding
              c.auth.uuid4 first others w₁ w' h;
      }

  -- The background tasks of an answer are those that the request needs.
  pub post_sms-tasks :
      (is_decimal : Char → Bool) (redis : Redis W) (now : W → ℕ)
      (service_limiter daily_limiter : RateLimiter) (credentials : Credentials)
      (request accepted : SmsRequest) (s s' : State W) (reply : Reply)
      → validated is_decimal request ≡ ok accepted
      → post_sms c redis now service_limiter daily_limiter credentials accepted s ≡ (ok reply, s')
      → reply.background_tasks
        ≡ needed request.phone_number request.recipient_identifier reply.response.id
  post_sms-tasks is_decimal redis now service_limiter daily_limiter credentials request accepted s
        s' reply valid answered =
      let admitted =
        post_sms-IsAdmitted c redis now service_limiter daily_limiter credentials accepted s s'
          reply answered in
      let done = admitted.answered in
      let (same, found) = validated-tasks is_decimal request accepted done.notification_id valid in
      let (resolver, resolved, tasks) = found in
      let resolvers : resolver ≡ admitted.resolver =
        ok_inj (get_sms_task_resolver request) resolved
          (ap get_sms_task_resolver (sym same) ∙ admitted.resolved) in
      let named : reply.response.id ≡ done.notification_id = ap (λ r. r.id) done.replied in
      done.tasks
      ∙ ap (λ r. get_tasks r done.notification_id) (sym resolvers)
      ∙ tasks
      ∙ ap (needed request.phone_number request.recipient_identifier) (sym named)

  -- An SMS request that the validators accept and the endpoint answers, and whose background task
  -- returns: one message was made for the tasks that the request needs, in the order in which they
  -- have to run, for the notification that the answer names, and SQS took it or it was given up.
  pub post_sms-AreQueued :
      (is_decimal : Char → Bool) (redis : Redis W) (now : W → ℕ)
      (service_limiter daily_limiter : RateLimiter) (credentials : Credentials)
      (request accepted : SmsRequest) (s s' : State W) (reply : Reply) (w w' : W)
      → validated is_decimal request ≡ ok accepted
      → post_sms c redis now service_limiter daily_limiter credentials accepted s ≡ (ok reply, s')
      → enqueue_notification_tasks reply.background_tasks w ≡ (ok tt, w')
      → AreQueued (needed request.phone_number request.recipient_identifier reply.response.id) w w'
  post_sms-AreQueued is_decimal redis now service_limiter daily_limiter credentials request accepted
        s s' reply w w' valid answered queued =
      subst (λ ts. AreQueued ts w w')
        (post_sms-tasks is_decimal redis now service_limiter daily_limiter credentials request
          accepted s s' reply valid answered)
        (enqueue_notification_tasks-AreQueued reply.background_tasks w w' queued)
