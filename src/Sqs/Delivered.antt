-- ===== src/Sqs/Delivered.antt =====
-- That tasks reach their queue while SQS answers: `enqueue_message` of app/legacy/clients/sqs.py.
use va_enp_api.Prelude.{
  ℕ, String, ◌≡◌, ◌∙◌, ap, inl, inr, Option, some, List, ◌∷◌, arith, Option-cases,
}
use va_enp_api.Effects.{Exception, ok, Exec, pure, raise, of_result, catch, >>=-ok, catch-ok}
use va_enp_api.Retry.{
  Tenacity, policy, log_last_attempt_on_failure, client_retry, max_client_retries,
}
use va_enp_api.Cache.{AlruCache}
use va_enp_api.Sms.Tasks.{Task}
use va_enp_api.Sqs.Envelopes.{Encoding, Envelope, with_prefix}
use va_enp_api.Sqs.Producer.{
  SqsClient, url_fault, send_fault, queue_url_of, logged, find_queue_url, attempt_send,
  attempt_queue_url, body_of_url, get_queue_url, send_message_to_queue, enqueue, enqueue_message,
}
use va_enp_api.Sqs.Sent.{
  IsMessage, IsSent, envelope_for, envelope_for-IsMessage, enqueue-IsSent, enqueue_message-cons,
}

-- No call of the client fails, and every queue has an address.
pub record AlwaysTakes {W : Type 0} (client : SqsClient W) : Type 0 where
  pub enters : (w : W) → (w' : W) × (client.enter w ≡ (ok tt, w'))
  pub exits : (w : W) → (w' : W) × (client.exit w ≡ (ok tt, w'))
  pub finds :
      (name : String) (w : W)
      → (url : String) × (w' : W) × (client.get_queue_url name w ≡ (ok (some url), w'))
  pub takes :
      (url : Option String) (body : String) (w : W)
      → (id : Option String) × (w' : W) × (client.send_message url body w ≡ (ok id, w'))

module _ {W : Type 0} (tenacity : Tenacity W) (client : SqsClient W)
    (queue_urls : AlruCache W (ℕ × String) String) (producer : ℕ) (encoding : Encoding)
    (uuid4 : W → String × W) where
  -- The message for some tasks, taken by SQS.
  pub record AreDelivered (first : Task) (others : List Task) (w w' : W) : Type 0 where
    pub envelope : Envelope
    pub w₀ : W
    pub made :
        envelope_for tenacity client queue_urls producer encoding uuid4 first others w
        ≡ (ok envelope, w₀)
    pub message : IsMessage tenacity client queue_urls producer encoding uuid4 first others envelope
    pub sent :
        IsSent tenacity client queue_urls producer encoding uuid4
          (with_prefix encoding first.queue)
          (encoding.dumps_envelope envelope)
          w₀
          w'

module _ {W : Type 0} (tenacity : Tenacity W) (client : SqsClient W)
    (queue_urls : AlruCache W (ℕ × String) String) (producer : ℕ) (encoding : Encoding)
    (uuid4 : W → String × W) (taking : AlwaysTakes client) where
  client_retry-returns :
      {A : Type 0} (m : Exec W Exception (Option A)) {w w' : W} {a : A}
      → m w ≡ (ok (some a), w')
      → client_retry tenacity A m w ≡ (ok (some a), w')
  unfolding client_retry
  client_retry-returns {A} m {w} {w'} {a} e =
      tenacity.returns (Option A) (policy (some log_last_attempt_on_failure) max_client_retries) m w
        w' (some a) e

  find_queue_url-found :
      (name : String) (w : W)
      → (url : String) × (w' : W) × (find_queue_url tenacity client name w ≡ (ok url, w'))
  find_queue_url-found name w =
      let (url, w', e) = taking.finds name w in
      let caught = catch-ok (client.get_queue_url name) (λ f. raise (url_fault name f)) e in
      (
        url,
        w',
        >>=-ok (catch (client.get_queue_url name) (λ f. raise (url_fault name f)))
            (λ u. of_result (queue_url_of u)) caught,
      )

  get_queue_url-found :
      (name : String) (w : W)
      → (url : String) × (w' : W) × (get_queue_url tenacity client queue_urls producer encoding
            uuid4 name w
          ≡ (ok (some url), w'))
  unfolding get_queue_url
  get_queue_url-found name w =
      let key : ℕ × String = (producer, name) in
      let body = body_of_url tenacity client queue_urls producer encoding uuid4 in
      let attempt = attempt_queue_url tenacity client queue_urls producer encoding uuid4 name in
      elim (Option-cases (queue_urls.cached key w)) [
        | inr (url, hit) ↦
            let called = queue_urls.hits body key w url hit in
            (
              url,
              _,
              client_retry-returns attempt
                  (>>=-ok (queue_urls.call body key) (λ u. pure (some u)) called),
            )
        | inl miss ↦
            let (url, w₁, found) = find_queue_url-found name w in
            let called = queue_urls.returns body key w w₁ url miss found in
            (
              url,
              _,
              client_retry-returns attempt
                  (>>=-ok (queue_urls.call body key) (λ u. pure (some u)) called),
            )
      ]

  send_message_to_queue-taken :
      (name : String) (url : Option String) (message : String) (w : W)
      → (id : Option String) × (w' : W) × (send_message_to_queue tenacity client name url message w
          ≡ (ok (some id), w'))
  unfolding send_message_to_queue
  send_message_to_queue-taken name url message w =
      let (id, w', e) = taking.takes url message w in
      let caught = catch-ok (client.send_message url message) (λ f. raise (send_fault name f)) e in
      (
        id,
        w',
        client_retry-returns (attempt_send tenacity client name url message) (
            >>=-ok (catch (client.send_message url message) (λ f. raise (send_fault name f)))
              (λ i. pure (some i)) caught),
      )

  enqueue-returns :
      (name message : String) (w : W)
      → (w' : W) × (enqueue tenacity client queue_urls producer encoding uuid4 name message w
          ≡ (ok tt, w'))
  unfolding enqueue
  enqueue-returns name message w =
      let (w₁, entered) = taking.enters w in
      let (url, w₂, found) = get_queue_url-found name w₁ in
      let (id, w₃, sent) = send_message_to_queue-taken name (some url) message w₂ in
      let (w₄, left) = taking.exits w₃ in (w₄, ground arith)

  -- While no call of SQS fails, a call for one task or more returns, and SQS has taken the message
  -- for them.
  pub enqueue_message-AreDelivered :
      (first : Task) (others : List Task) (w : W)
      → (w' : W) × (enqueue_message tenacity client queue_urls producer encoding uuid4
            (first ∷ others)
            w
          ≡ (ok tt, w'))
        × AreDelivered tenacity client queue_urls producer encoding uuid4 first others w w'
  enqueue_message-AreDelivered first others w =
      let name = with_prefix encoding first.queue in
      let make = envelope_for tenacity client queue_urls producer encoding uuid4 first others in
      let (envelope, w₀, made, message) =
        envelope_for-IsMessage tenacity client queue_urls producer encoding uuid4 first others w in
      let text = encoding.dumps_envelope envelope in
      let (w', returned) = enqueue-returns name text w₀ in
      let send = enqueue tenacity client queue_urls producer encoding uuid4 name in
      (
        w',
        ap (λ m. m w)
              (enqueue_message-cons tenacity client queue_urls producer encoding uuid4 first others)
            ∙ >>=-ok make (λ e. catch (send (encoding.dumps_envelope e)) logged) made
            ∙ catch-ok (send text) logged returned,
        record {
          envelope = envelope;
          w₀ = w₀;
          made = made;
          message = message;
          sent =
              enqueue-IsSent tenacity client queue_urls producer encoding uuid4 name text w₀ w'
                returned;
        },
      )
