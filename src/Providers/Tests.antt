-- ===== src/Providers/Tests.antt =====
-- Runs of the provider over an SNS in memory.
use va_enp_api.Prelude.{String, ◌≡◌, ◌↔◌, refl, true, none, some, List, [], ◌∷◌}
use va_enp_api.Effects.{Exception, ok, err, async_with, item, is_retryable}
use va_enp_api.Retry.Samples.{simple_tenacity}
use va_enp_api.Providers.Schemas.{PushModel, check_arn}
use va_enp_api.Providers.Sns.{
  attempt_push, SnsFault, is_retriable_fault, handle_sns_exceptions, sns_item, send_notification,
  get_platform_application_arn,
}
use va_enp_api.Retry.Outcomes.{Reaches, more_attempts}
use va_enp_api.Providers.Laws.{Addressed, send_notification-ok}
use va_enp_api.Providers.Faults.{sns_item-retryable_iff}
use va_enp_api.Providers.Samples.{Topic, sns, quiet, aws}

abbrev model : PushModel
model = record { message = "hello"; target_arn = some "arn:device"; topic_arn = none }

abbrev sent : Topic
sent = record {
  published = (("Message", some "hello") ∷ ("TargetArn", some "arn:device") ∷ []) ∷ [];
  registered = [];
  refused = 0;
}

third_attempt :
    send_notification (simple_tenacity Topic) sns aws model (quiet 2) ≡ (ok (some "m1"), sent)
unfolding send_notification handle_sns_exceptions
third_attempt = refl

application_arn :
    get_platform_application_arn aws "VETEXT" ≡ "arn:aws:sns:us-east-1:000000000000:app/APNS/VETEXT"
unfolding get_platform_application_arn
application_arn = refl

valid_model : check_arn model ≡ ok model
unfolding check_arn
valid_model = refl

send_notification-ok_example :
    (key : String) × (arn : String) × Addressed model key arn
    × (w₀ : Topic) × Reaches
        (λ w. w)
        (attempt_push (simple_tenacity Topic) sns aws model)
        (more_attempts aws.max_retries)
        (quiet 2)
        w₀
    × (response : List (String × String)) × (async_with sns.enter sns.exit
          (sns.publish (("Message", some model.message) ∷ (key, some arn) ∷ []))
          w₀
        ≡ (ok response, sent))
    × (item "MessageId" response ≡ ok "m1")
send_notification-ok_example =
    send_notification-ok (simple_tenacity Topic) sns aws model model (quiet 2) sent "m1" valid_model
      third_attempt

sns_item-retryable_iff_example :
    ((x : Exception) × (is_retryable x ≡ true)
      × (sns_item (simple_tenacity Topic) sns aws "failed" (sns.publish []) "MessageId" (quiet 1)
          ≡ (err x, quiet 0)))
    ↔ ((f : SnsFault) × (is_retriable_fault f ≡ true)
        × (async_with sns.enter sns.exit (sns.publish []) (quiet 1) ≡ (err f, quiet 0)))
sns_item-retryable_iff_example =
    sns_item-retryable_iff (simple_tenacity Topic) sns aws "failed" "MessageId" (sns.publish [])
      (quiet 1) (quiet 0)
