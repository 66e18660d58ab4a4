-- ===== src/Sms/OutboundTests.antt =====
-- An SMS request from the endpoint to a queue that takes every message.
use va_enp_api.Prelude.{ℕ, ◌≡◌, refl, some, [], ◌∷◌, f_string}
use va_enp_api.Effects.{ok}
use va_enp_api.Retry.{client_retry}
use va_enp_api.Cache.{no_cache}
use va_enp_api.Dao.Samples.{Tables}
use va_enp_api.Auth.Samples.{fresh}
use va_enp_api.Sms.Tasks.{deliver_sms, lookup_contact, lookup_profile}
use va_enp_api.Sms.Outbound.{enqueue_notification_tasks, AreQueued, post_sms-AreQueued}
use va_enp_api.Sms.Sending.{AreTaken, post_sms-AreTaken}
use va_enp_api.Sqs.Delivered.{AlwaysTakes}
use va_enp_api.Sms.Samples.{
  ascii_digit, tables, sms_collaborators, request, known, generous, limiter, noon, credentials,
}
use va_enp_api.Sms.Runs.{accepted, after_all, reply, posted}
use va_enp_api.Sqs.Envelopes.{Encoding, generate_celery_task_chain}
use va_enp_api.Sqs.Producer.{
  SqsClient, send_message_to_queue, get_queue_url, enqueue, enqueue_message,
}

abbrev client : SqsClient Tables
client = record {
  enter = λ w. (ok tt, w);
  exit = λ w. (ok tt, w);
  get_queue_url = λ name w. (ok (some (f_string ("https://" ∷ name ∷ []))), w);
  send_message = λ url body w. (ok (some "m"), w);
}

abbrev encoding : Encoding
encoding = record {
  queue_prefix = "dev-notification-";
  dumps_task = λ b. b.id;
  dumps_chain = λ b. b.notification_id;
  dumps_envelope = λ e. e.properties.routing_key;
  b64encode = λ s. s;
}

abbrev new_producer : Tables → ℕ × Tables
new_producer w = (1, w)

queued :
    enqueue_notification_tasks sms_collaborators client
      (no_cache Tables _ _)
      new_producer
      encoding
      reply.background_tasks
      after_all
    ≡ (ok tt, after_all)
unfolding enqueue_notification_tasks enqueue_message enqueue get_queue_url send_message_to_queue
    client_retry generate_celery_task_chain
queued = refl

post_sms-AreQueued_example :
    AreQueued sms_collaborators client
      (no_cache Tables _ _)
      new_producer
      encoding
      (lookup_profile "n1" ∷ lookup_contact "n1" ∷ deliver_sms "n1" ∷ [])
      after_all
      after_all
post_sms-AreQueued_example =
    post_sms-AreQueued sms_collaborators client (no_cache Tables _ _) new_producer encoding
      ascii_digit generous noon limiter limiter credentials request request (fresh tables)
      (known after_all) reply after_all after_all accepted posted queued

client-AlwaysTakes : AlwaysTakes client
client-AlwaysTakes = record {
  enters = λ w. (w, refl);
  exits = λ w. (w, refl);
  finds = λ name w. (f_string ("https://" ∷ name ∷ []), w, refl);
  takes = λ url body w. (some "m", w, refl);
}

post_sms-AreTaken_example :
    (w' : Tables) × (enqueue_notification_tasks sms_collaborators client
        (no_cache Tables _ _)
        new_producer
        encoding
        reply.background_tasks
        after_all
      ≡ (ok tt, w'))
    × AreTaken sms_collaborators client
        (no_cache Tables _ _)
        new_producer
        encoding
        (lookup_profile "n1" ∷ lookup_contact "n1" ∷ deliver_sms "n1" ∷ [])
        after_all
        w'
post_sms-AreTaken_example =
    post_sms-AreTaken sms_collaborators client (no_cache Tables _ _) new_producer encoding
      ascii_digit generous noon limiter limiter credentials request request (fresh tables)
      (known after_all) reply after_all client-AlwaysTakes accepted posted
