-- ===== src/Sqs/Sent.antt =====
-- What a call of `enqueue_message` that returned has sent: app/legacy/clients/sqs.py.
use va_enp_api.Prelude.{
  ℕ, String, ◌≡◌, refl, sym, ap, ◌∙◌, true, ◌⊎◌, inl, inr, Option, none, some, List, [], ◌∷◌, arith,
  Bool-cases, Option-cases,
}
use va_enp_api.Effects.{
  Exception, ok, err, Exec, pure, raise, of_result, catch, is_app_error, Exec-cases, >>=-eq-ok,
  async_with-ok, catch-raise-ok, async_with,
}
use va_enp_api.Retry.{Tenacity}
use va_enp_api.Retry.Outcomes.{Reaches, Tries-returned_some, client_retry-Tries}
use va_enp_api.Cache.{AlruCache}
use va_enp_api.Sms.Tasks.{Task}
use va_enp_api.Sqs.Envelopes.{
  Encoding, Envelope, with_prefix, generate_celery_task, generate_celery_task_chain,
}
use va_enp_api.Sqs.Order.{IsChain, generate_celery_task_chain-IsChain}
use va_enp_api.Sqs.Producer.{
  SqsClient, send_fault, message_id, attempt_send, get_queue_url, send_message_to_queue, deliver,
  enqueue, try_enqueue, enqueue_message,
}

-- A message for one task.
pub record IsTask (encoding : Encoding) (t : Task) (envelope : Envelope) : Type 0 where
  pub id : String
  pub headers : envelope.headers ≡ none
  pub routed : envelope.properties.routing_key ≡ with_prefix encoding t.queue
  pub body :
      envelope.body
      ≡ encoding.b64encode
          (encoding.dumps_task (record { task = t.name; id = id; args = t.notification_id ∷ [] }))

module _ {W : Type 0} (tenacity : Tenacity W) (client : SqsClient W)
    (queue_urls : AlruCache W (ℕ × String) String) (producer : ℕ) (encoding : Encoding)
    (uuid4 : W → String × W) where
  -- A message for a task and those that follow it.
  abbrev pub IsMessage : Task → List Task → Envelope → Type 0
  IsMessage first [] envelope = IsTask encoding first envelope
  IsMessage first (t ∷ ts) envelope = IsChain encoding uuid4 first (t ∷ ts) envelope

  abbrev pub envelope_for : Task → List Task → Exec W Exception Envelope
  envelope_for first [] = generate_celery_task encoding uuid4 first
  envelope_for first (t ∷ ts) = generate_celery_task_chain encoding uuid4 (first ∷ t ∷ ts)

  -- A message that SQS took: the client was opened, the queue's address was found, the fifth
  -- attempt at sending or one before it returned, and the client was closed.
  pub record IsSent (queue_name message : String) (w w' : W) : Type 0 where
    pub w₁ : W
    pub w₂ : W
    pub w₃ : W
    pub w₄ : W
    pub queue_url : Option String
    pub id : Option String
    pub entered : client.enter w ≡ (ok tt, w₁)
    pub found :
        get_queue_url tenacity client queue_urls producer encoding uuid4 queue_name w₁
        ≡ (ok queue_url, w₂)
    pub retried :
        Reaches tenacity.pause (attempt_send tenacity client queue_name queue_url message) 4 w₂ w₃
    pub sent : client.send_message queue_url message w₃ ≡ (ok id, w₄)
    pub left : client.exit w₄ ≡ (ok tt, w')

  send_message_to_queue-ok :
      (queue_name : String) (queue_url : Option String) (message : String) (id : Option String)
      (w w' : W)
      → send_message_to_queue tenacity client queue_name queue_url message w ≡ (ok (some id), w')
      → (w₁ : W) × Reaches tenacity.pause
          (attempt_send tenacity client queue_name queue_url message)
          4
          w
          w₁
        × (client.send_message queue_url message w₁ ≡ (ok id, w'))
  unfolding send_message_to_queue
  send_message_to_queue-ok queue_name queue_url message id w w' h =
      let m = attempt_send tenacity client queue_name queue_url message in
      let (w₁, reached, e) = Tries-returned_some (client_retry-Tries tenacity m w) h in
      let (id', w₂, sent, same) =
        >>=-eq-ok
          (catch (client.send_message queue_url message) (λ f. raise (send_fault queue_name f)))
          (λ i. pure (some i)) w₁ e in
      let taken =
        catch-raise-ok (client.send_message queue_url message) (send_fault queue_name) w₁ sent in
      (w₁, reached, ground arith)

  pub enqueue-IsSent :
      (queue_name message : String) (w w' : W)
      → enqueue tenacity client queue_urls producer encoding uuid4 queue_name message w
        ≡ (ok tt, w')
      → IsSent queue_name message w w'
  unfolding enqueue
  enqueue-IsSent queue_name message w w' h =
      let send = deliver tenacity client queue_urls producer encoding uuid4 queue_name message in
      let (response, w₅, ran, read) =
        >>=-eq-ok (async_with client.enter client.exit send) (λ r. of_result (message_id r)) w h in
      let (w₁, w₄, entered, delivered, left) = async_with-ok client.enter client.exit send w ran in
      let (queue_url, w₂, found, answered) =
        >>=-eq-ok (get_queue_url tenacity client queue_urls producer encoding uuid4 queue_name)
          (λ url. send_message_to_queue tenacity client queue_name url message) w₁ delivered in
      elim (Option-cases response) [
        | inl nothing ↦ absurd (ground arith)
        | inr (id, some_id) ↦
            let (w₃, retried, sent) =
              send_message_to_queue-ok queue_name queue_url message id w₂ w₄ (ground arith) in
            record {
              w₁ = w₁;
              w₂ = w₂;
              w₃ = w₃;
              w₄ = w₄;
              queue_url = queue_url;
              id = id;
              entered = entered;
              found = found;
              retried = retried;
              sent = sent;
              left = ground arith;
            }
      ]

  -- A message that was given up: the failure was classified, and is in the log only.
  pub record IsGivenUp (queue_name message : String) (w w' : W) : Type 0 where
    pub x : Exception
    pub failed :
        enqueue tenacity client queue_urls producer encoding uuid4 queue_name message w
        ≡ (err x, w')
    pub classified : is_app_error x ≡ true

  try_enqueue-ok :
      (queue_name : String) (make : Exec W Exception Envelope) (envelope : Envelope) (w w₀ w' : W)
      → make w ≡ (ok envelope, w₀)
      → try_enqueue tenacity client queue_urls producer encoding uuid4 queue_name make w
        ≡ (ok tt, w')
      → IsSent (with_prefix encoding queue_name) (encoding.dumps_envelope envelope) w₀ w'
        ⊎ IsGivenUp (with_prefix encoding queue_name) (encoding.dumps_envelope envelope) w₀ w'
  try_enqueue-ok queue_name make envelope w w₀ w' made h =
      let prefixed = with_prefix encoding queue_name in
      let message = encoding.dumps_envelope envelope in
      elim (Exec-cases (enqueue tenacity client queue_urls producer encoding uuid4 prefixed message)
        w₀) [
          | inl (a, w₁, e) ↦ inl (enqueue-IsSent prefixed message w₀ w' (ground arith))
          | inr (x, w₁, e) ↦ elim (Bool-cases (is_app_error x)) [
            | inl p ↦ inr (record { x = x; failed = ground arith; classified = p })
            | inr p ↦ absurd (ground arith)
          ]
        ]

  -- What a call for a task and those that follow it has made: one message for them all, which SQS
  -- took in the end or which was given up.
  pub record IsHandedOver (first : Task) (others : List Task) (w w' : W) : Type 0 where
    pub envelope : Envelope
    pub w₀ : W
    pub made : envelope_for first others w ≡ (ok envelope, w₀)
    pub message : IsMessage first others envelope
    pub outcome :
        IsSent (with_prefix encoding first.queue) (encoding.dumps_envelope envelope) w₀ w'
        ⊎ IsGivenUp (with_prefix encoding first.queue) (encoding.dumps_envelope envelope) w₀ w'

  generate_celery_task-IsTask :
      (t : Task) (w : W)
      → (envelope : Envelope) × (w₀ : W) × (generate_celery_task encoding uuid4 t w
          ≡ (ok envelope, w₀))
        × IsTask encoding t envelope
  unfolding generate_celery_task
  generate_celery_task-IsTask t w =
      let (id, w₁) = uuid4 w in
      (_, _, refl, record { id = id; headers = refl; routed = refl; body = refl })

  -- A message can always be made.
  pub envelope_for-IsMessage :
      (first : Task) (others : List Task) (w : W)
      → (envelope : Envelope) × (w₀ : W) × (envelope_for first others w ≡ (ok envelope, w₀))
        × IsMessage first others envelope
  envelope_for-IsMessage first [] w = generate_celery_task-IsTask first w
  envelope_for-IsMessage first (t ∷ ts) w =
      generate_celery_task_chain-IsChain encoding uuid4 first (t ∷ ts) w

  pub enqueue_message-cons :
      (first : Task) (others : List Task)
      → enqueue_message tenacity client queue_urls producer encoding uuid4 (first ∷ others)
        ≡ try_enqueue tenacity client queue_urls producer encoding uuid4 first.queue
            (envelope_for first others)
  unfolding enqueue_message
  enqueue_message-cons first [] = refl
  enqueue_message-cons first (t ∷ ts) = refl

  -- A call of `enqueue_message` that returns made one message for its tasks, to the queue of the
  -- first with the prefix of the environment, and gave it to SQS until it was taken, or failed in a
  -- way that is classified and logged.
  pub enqueue_message-IsHandedOver :
      (first : Task) (others : List Task) (w w' : W)
      → enqueue_message tenacity client queue_urls producer encoding uuid4 (first ∷ others) w
        ≡ (ok tt, w')
      → IsHandedOver first others w w'
  enqueue_message-IsHandedOver first others w w' h =
      let (envelope, w₀, made, message) = envelope_for-IsMessage first others w in
      record {
        envelope = envelope;
        w₀ = w₀;
        made = made;
        message = message;
        outcome =
            try_enqueue-ok first.queue (envelope_for first others) envelope w w₀ w' made
              (ap (λ m. m w) (sym (enqueue_message-cons first others)) ∙ h);
      }
