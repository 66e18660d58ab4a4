-- ===== src/Sqs/Tests.antt =====
-- Runs of the producer over a queue in memory.
use va_enp_api.Prelude.{
  ℕ, zero, suc, String, ◌≡◌, refl, Option, none, some, List, [], ◌∷◌, f_string,
}
use va_enp_api.Effects.{retryable_error, attribute_error, Result, ok, err}
use va_enp_api.Retry.{client_retry}
use va_enp_api.Retry.Outcomes.{AllFail, last_fails, fails}
use va_enp_api.Retry.Samples.{simple_tenacity}
use va_enp_api.Cache.{no_cache}
use va_enp_api.Sms.Tasks.{deliver_sms, lookup_contact, lookup_profile}
use va_enp_api.Sqs.Envelopes.{Envelope, Encoding, generate_celery_task, generate_celery_task_chain}
use va_enp_api.Sqs.Producer.{
  SqsFault, client_error, SqsClient, handle_client_error, attempt_send, send_message_to_queue,
  get_queue_url, enqueue, enqueue_message,
}
use va_enp_api.Sqs.Failures.{enqueue_message_throttled}

-- The messages that were sent, by queue, and how often the next ones are throttled.
record Queue : Type 0 where
  sent : List (Option String × String)
  throttled : ℕ

abbrev throttle : ℕ → Option String → String → Queue → Result SqsFault (Option String) × Queue
throttle zero url body q = (ok (some "m"), record q { sent = (url, body) ∷ q.sent })
throttle (suc n) url body q =
    (err (client_error (some "ThrottlingException")), record q { throttled = n })

abbrev client : SqsClient Queue
client = record {
  enter = λ q. (ok tt, q);
  exit = λ q. (ok tt, q);
  get_queue_url = λ name q. (ok (some (f_string ("https://" ∷ name ∷ []))), q);
  send_message = λ url body q. throttle q.throttled url body q;
}

-- The text of an envelope is the key of its route.
abbrev encoding : Encoding
encoding = record {
  queue_prefix = "dev-notification-";
  dumps_task = λ b. b.id;
  dumps_chain = λ b. b.notification_id;
  dumps_envelope = λ e. e.properties.routing_key;
  b64encode = λ s. s;
}

abbrev uuid4 : Queue → String × Queue
uuid4 q = ("u", q)

abbrev busy : ℕ → Queue
busy n = record { sent = []; throttled = n }

sent_at_last :
    enqueue_message
      (simple_tenacity Queue)
      client
      (no_cache Queue _ _)
      0
      encoding
      uuid4
      (lookup_profile "n1" ∷ lookup_contact "n1" ∷ deliver_sms "n1" ∷ [])
      (busy 4)
    ≡ (
      ok tt,
      record {
        sent =
            (
              some "https://dev-notification-lookup-va-profile-id-tasks",
              "dev-notification-lookup-va-profile-id-tasks",
            )
            ∷ [];
        throttled = 0;
      },
    )
unfolding enqueue_message enqueue get_queue_url send_message_to_queue client_retry
    generate_celery_task_chain handle_client_error
sent_at_last = refl

abbrev envelope : Envelope
envelope = record {
  body = "u";
  content_encoding = "utf-8";
  content_type = "application/json";
  headers = none;
  properties = record {
    reply_to = some "u";
    correlation_id = "u";
    delivery_mode = 2;
    priority = 0;
    exchange = "default";
    routing_key = "dev-notification-send-sms-tasks";
    body_encoding = "base64";
    delivery_tag = "u";
  };
}

made : generate_celery_task encoding uuid4 (deliver_sms "n1") (busy 5) ≡ (ok envelope, busy 5)
unfolding generate_celery_task
made = refl

found :
    get_queue_url
      (simple_tenacity Queue)
      client
      (no_cache Queue _ _)
      0
      encoding
      uuid4
      "dev-notification-send-sms-tasks"
      (busy 5)
    ≡ (ok (some "https://dev-notification-send-sms-tasks"), busy 5)
unfolding get_queue_url client_retry
found = refl

five_fail :
    AllFail
      (λ w. w)
      (attempt_send
        (simple_tenacity Queue)
        client
        "dev-notification-send-sms-tasks"
        (some "https://dev-notification-send-sms-tasks")
        "dev-notification-send-sms-tasks")
      4
      (busy 5)
      (retryable_error (
        some
          "Failed to send message to SQS queue \"dev-notification-send-sms-tasks\". ClientError: Retryable"))
      (busy 0)
unfolding handle_client_error
five_fail =
    fails refl refl (fails refl refl (fails refl refl (fails refl refl (last_fails refl refl))))

enqueue_message_throttled_example :
    enqueue_message
      (simple_tenacity Queue)
      client
      (no_cache Queue _ _)
      0
      encoding
      uuid4
      (deliver_sms "n1" ∷ [])
      (busy 5)
    ≡ (err attribute_error, busy 0)
enqueue_message_throttled_example =
    enqueue_message_throttled (simple_tenacity Queue) client (no_cache Queue _ _) 0 encoding uuid4
      (deliver_sms "n1") envelope (some "https://dev-notification-send-sms-tasks")
      (retryable_error (
        some
          "Failed to send message to SQS queue \"dev-notification-send-sms-tasks\". ClientError: Retryable"))
      (busy 5) (busy 5) (busy 5) (busy 5) (busy 0) (busy 0) made refl found five_fail refl
