-- ===== src/Sqs/Failures.antt =====
-- What becomes of a message that cannot be sent: `enqueue_message` of app/legacy/clients/sqs.py.
use va_enp_api.Prelude.{
  ℕ, String, ◌≡◌, ◌≢◌, refl, true, Option, List, [], ◌∷◌, arith, inl, inr, Bool-cases,
}
use va_enp_api.Effects.{Exception, attribute_error, ok, err, Exec, catch, is_app_error, Exec-cases}
use va_enp_api.Retry.{Tenacity}
use va_enp_api.Retry.Outcomes.{AllFail, client_retry_exhausted}
use va_enp_api.Cache.{AlruCache}
use va_enp_api.Sms.Tasks.{Task}
use va_enp_api.Sqs.Envelopes.{
  Encoding, Envelope, with_prefix, generate_celery_task, generate_celery_task_chain,
}
use va_enp_api.Sqs.Order.{generate_celery_task_chain-IsChain}
use va_enp_api.Sqs.Producer.{
  SqsClient, logged, attempt_send, get_queue_url, send_message_to_queue, enqueue, try_enqueue,
  enqueue_message,
}

module _ {W : Type 0} (tenacity : Tenacity W) (client : SqsClient W)
    (queue_urls : AlruCache W (ℕ × String) String) (producer : ℕ) (encoding : Encoding)
    (uuid4 : W → String × W) where
  logged-ne-app_error : (x y : Exception) (w : W) → is_app_error y ≡ true → (logged x w).0 ≢ err y
  logged-ne-app_error x y w app h = elim (Bool-cases (is_app_error x)) [
    | inl a ↦ absurd (ground arith)
    | inr b ↦ absurd (ground arith)
  ]

  caught-ne-app_error :
      (m : Exec W Exception (Unit {0})) (y : Exception) (w : W)
      → is_app_error y ≡ true
      → (catch m logged w).0 ≢ err y
  caught-ne-app_error m y w app h = elim (Exec-cases m w) [
    | inl (a, w₁, e) ↦ absurd (ground arith)
    | inr (x, w₁, e) ↦ logged-ne-app_error x y w₁ app (ground arith)
  ]

  try_enqueue-ne-app_error :
      (queue_name : String) (make : Exec W Exception Envelope) (y : Exception) (w w' : W)
      (envelope : Envelope)
      → make w ≡ (ok envelope, w')
      → is_app_error y ≡ true
      → (try_enqueue tenacity client queue_urls producer encoding uuid4 queue_name make w).0 ≢ err y
  try_enqueue-ne-app_error queue_name make y w w' envelope made app h =
      caught-ne-app_error
        (enqueue tenacity client queue_urls producer encoding uuid4
          (with_prefix encoding queue_name) (encoding.dumps_envelope envelope))
        y w' app (ground arith)

  generate_celery_task-ok :
      (t : Task) (w : W)
      → (envelope : Envelope) × (w' : W) × (generate_celery_task encoding uuid4 t w
          ≡ (ok envelope, w'))
  unfolding generate_celery_task
  generate_celery_task-ok t w = (_, _, refl)

  -- No failure that the producer classifies, retryable or not, leaves `enqueue_message`.
  pub enqueue_message-ne-app_error :
      (tasks : List Task) (w : W) (y : Exception)
      → is_app_error y ≡ true
      → (enqueue_message tenacity client queue_urls producer encoding uuid4 tasks w).0 ≢ err y
  unfolding enqueue_message
  enqueue_message-ne-app_error [] w y app h = absurd (ground arith)
  enqueue_message-ne-app_error (t ∷ []) w y app h =
      let (envelope, w', made) = generate_celery_task-ok t w in
      try_enqueue-ne-app_error t.queue (generate_celery_task encoding uuid4 t) y w w' envelope made
        app h
  enqueue_message-ne-app_error (t ∷ u ∷ ts) w y app h =
      let (envelope, w', made, _) =
        generate_celery_task_chain-IsChain encoding uuid4 t (u ∷ ts) w in
      try_enqueue-ne-app_error t.queue (generate_celery_task_chain encoding uuid4 (t ∷ u ∷ ts)) y w
        w' envelope made app h

  -- If each of the five attempts at sending a task's message fails with a retryable error, the call
  -- ends in an `AttributeError`, which is not caught: the retried method returned `None`.
  pub enqueue_message_throttled :
      (t : Task) (envelope : Envelope) (queue_url : Option String) (x : Exception)
      (w w₀ w₁ w₂ w₃ w₄ : W)
      → generate_celery_task encoding uuid4 t w ≡ (ok envelope, w₀)
      → client.enter w₀ ≡ (ok tt, w₁)
      → get_queue_url tenacity client queue_urls producer encoding uuid4
          (with_prefix encoding t.queue)
          w₁
        ≡ (ok queue_url, w₂)
      → AllFail tenacity.pause
          (attempt_send tenacity client
            (with_prefix encoding t.queue)
            queue_url
            (encoding.dumps_envelope envelope))
          4
          w₂
          x
          w₃
      → client.exit w₃ ≡ (ok tt, w₄)
      → enqueue_message tenacity client queue_urls producer encoding uuid4 (t ∷ []) w
        ≡ (err attribute_error, w₄)
  unfolding enqueue_message enqueue send_message_to_queue
  enqueue_message_throttled t envelope queue_url x w w₀ w₁ w₂ w₃ w₄ made entered found fail left =
      let gave_up =
        client_retry_exhausted tenacity
          (attempt_send tenacity client (with_prefix encoding t.queue) queue_url
            (encoding.dumps_envelope envelope))
          fail in
      ground arith
