-- ===== src/Sms/Sending.antt =====
-- That an answered SMS request reaches its queue while SQS answers: the endpoint, and its background
-- task `enqueue_notification_tasks` of app/legacy/v2/notifications/utils.py.
use Prim.Native.Char.{Char}
use va_enp_api.Prelude.{
  ℕ, String, Bool, ◌≡◌, refl, ◌∙◌, inl, inr, Option, none, some, List, [], ◌∷◌, Bool-cases, subst,
}
use va_enp_api.Effects.{ok}
use va_enp_api.Cache.{AlruCache}
use va_enp_api.Dao.Rows.{RecipientIdentifier}
use va_enp_api.Auth.Service.{State}
use va_enp_api.Auth.Bearer.{Credentials}
use va_enp_api.Redis.Server.{Redis}
use va_enp_api.Limits.Limiter.{RateLimiter}
use va_enp_api.Sms.Requests.{SmsRequest, validated}
use va_enp_api.Sms.Tasks.{Task, deliver_sms, lookup_contact, lookup_profile, is_va_profile_id}
use va_enp_api.Sms.Chains.{needed}
use va_enp_api.Sms.Valid.{HasRecipient, validated-ok_iff}
use va_enp_api.Sms.Handler.{SmsCollaborators, Reply, post_sms}
use va_enp_api.Sms.Outbound.{enqueue_notification_tasks, post_sms-tasks}
use va_enp_api.Sqs.Envelopes.{Encoding}
use va_enp_api.Sqs.Producer.{SqsClient}
use va_enp_api.Sqs.Delivered.{AlwaysTakes, AreDelivered, enqueue_message-AreDelivered}

-- A recipient needs one task at least.
needed-cons :
    (phone_number : Option String) (r : Option RecipientIdentifier) (id : String)
    → HasRecipient phone_number r
    → (first : Task) × (others : List Task) × (needed phone_number r id ≡ first ∷ others)
needed-cons (some phone_number) r id h = (deliver_sms id, [], refl)
needed-cons none (some r) id h = elim (Bool-cases (is_va_profile_id r.id_type)) [
  | inl profile ↦ (lookup_contact id, deliver_sms id ∷ [], rw profile refl)
  | inr other ↦ (lookup_profile id, lookup_contact id ∷ deliver_sms id ∷ [], rw other refl)
]
needed-cons none none id h = absurd h

module _ {W : Type 0} (c : SmsCollaborators W) (client : SqsClient W)
    (queue_urls : AlruCache W (ℕ × String) String) (new_producer : W → ℕ × W)
    (encoding : Encoding) where
  -- Tasks, of which there is one at least, that a new producer has handed to SQS.
  pub record AreTaken (tasks : List Task) (w w' : W) : Type 0 where
    pub first : Task
    pub others : List Task
    pub producer : ℕ
    pub w₁ : W
    pub all : tasks ≡ first ∷ others
    pub fresh : new_producer w ≡ (producer, w₁)
    pub delivered :
        AreDelivered c.auth.tenacity client queue_urls producer encoding c.auth.uuid4 first others
          w₁ w'

  enqueue_notification_tasks-AreTaken :
      (tasks : List Task) (first : Task) (others : List Task) (w : W)
      → AlwaysTakes client
      → tasks ≡ first ∷ others
      → (w' : W) × (enqueue_notification_tasks c client queue_urls new_producer encoding tasks w
          ≡ (ok tt, w'))
        × AreTaken tasks w w'
  unfolding enqueue_notification_tasks
  enqueue_notification_tasks-AreTaken tasks first others w taking all =
      let (producer, w₁) = new_producer w in
      let (w', returned, delivered) =
        enqueue_message-AreDelivered c.auth.tenacity client queue_urls producer encoding
          c.auth.uuid4 taking first others w₁ in
      (
        w',
        rw all returned,
        record {
          first = first;
          others = others;
          producer = producer;
          w₁ = w₁;
          all = all;
          fresh = refl;
          delivered = delivered;
        },
      )

  -- An SMS request that the validators accept and the endpoint answers: while no call of SQS fails,
  -- its background task returns, and SQS has taken one message for the tasks that the request needs,
  -- in the order in which they have to run, for the notification that the answer names.
  pub post_sms-AreTaken :
      (is_decimal : Char → Bool) (redis : Redis W) (now : W → ℕ)
      (service_limiter daily_limiter : RateLimiter) (credentials : Credentials)
      (request accepted : SmsRequest) (s s' : State W) (reply : Reply) (w : W)
      → AlwaysTakes client
      → validated is_decimal request ≡ ok accepted
      → post_sms c redis now service_limiter daily_limiter credentials accepted s ≡ (ok reply, s')
      → (w' : W) × (enqueue_notification_tasks c client queue_urls new_producer encoding
            reply.background_tasks w
          ≡ (ok tt, w'))
        × AreTaken (needed request.phone_number request.recipient_identifier reply.response.id) w w'
  post_sms-AreTaken is_decimal redis now service_limiter daily_limiter credentials request accepted
        s s' reply w taking valid answered =
      let (well_formed, _) = (validated-ok_iff is_decimal request accepted).0 valid in
      let (first, others, some_task) =
        needed-cons request.phone_number request.recipient_identifier reply.response.id
          well_formed.reachable in
      let tasks =
        post_sms-tasks c client queue_urls new_producer encoding is_decimal redis now
          service_limiter daily_limiter credentials request accepted s s' reply valid answered in
      let (w', returned, taken) =
        enqueue_notification_tasks-AreTaken reply.background_tasks first others w taking
          (tasks ∙ some_task) in
      (w', returned, subst (λ ts. AreTaken ts w w') tasks taken)
