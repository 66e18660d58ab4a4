-- ===== src/Sms/PushTests.antt =====
-- Runs of the push endpoint, of the check of a telephone number, and of the e-mail request.
use Prim.Native.Char.{Char, code}
use va_enp_api.Prelude.{
  String, ◌≡◌, ◌↔◌, refl, Bool, ◌||◌, ◌==◌, ◌+◌, none, some, List, [], ◌∷◌, arith,
}
use va_enp_api.Prelude.Int.{◌+ℤ◌}
use va_enp_api.Constants.{va_flagship_app}
use va_enp_api.Effects.{value_error, ok, err}
use va_enp_api.Retry.{db_retry, redis_retry}
use va_enp_api.Dao.Lookups.{get_service, get_service_api_keys}
use va_enp_api.Dao.Writes.{Personalisation}
use va_enp_api.Dao.Samples.{Tables}
use va_enp_api.Auth.Secrets.{from_row}
use va_enp_api.Auth.Tokens.{get_token_issuer}
use va_enp_api.Auth.Service.{
  verify_key, validate_service_api_key, try_keys, verify_service_token, find_active_service,
  find_api_keys,
}
use va_enp_api.Auth.Bearer.{jwt_bearer}
use va_enp_api.Auth.Samples.{collaborators, fresh}
use va_enp_api.Redis.Client.{attempt_token, consume_rate_limit_token}
use va_enp_api.Limits.Strategies.{is_allowed, get_key, calculate_window_expiry}
use va_enp_api.Limits.Limiter.{enforce, allows}
use va_enp_api.Providers.Sns.{SnsClient}
use va_enp_api.Providers.Samples.{aws}
use va_enp_api.Start.Lifespan.{RedisManager}
use va_enp_api.State.{EnpState, provider_aws, new_enp_state}
use va_enp_api.Sms.Samples.{ascii_digit, tables, known, generous, limiter, noon, credentials}
use va_enp_api.Sms.Vanity.{vanity_check}
use va_enp_api.Sms.PlainNumbers.{IsPlainNumber, vanity_check-ok_iff}
use va_enp_api.Sms.Emails.{EmailRequest, email_or_recipient_id}
use va_enp_api.Sms.Push.{
  PushRequest, reply_for, replace_text, personalised, create_push_notification, post_push,
}
use va_enp_api.Sms.Filling.{Segment, words, blank, message_of, completed, personalised-message_of}
use va_enp_api.Sms.Unsent.{IsUnsent, post_push-IsUnsent}

replaced : replace_text "((a))" "((a" "x((a))y((a))" ≡ "x((ay((a"
replaced = refl

-- A value that holds another key's mark is filled in turn.
filled_twice : personalised (some (("a", "((b))") ∷ ("b", "z") ∷ [])) "((a)) and ((b))" ≡ "z and z"
unfolding personalised
filled_twice = refl

abbrev segments : List Segment
segments =
    words "Will be "
    ∷ blank "record"
    ∷ words " from "
    ∷ blank "table"
    ∷ words ", "
    ∷ blank "record"
    ∷ []

abbrev entries : Personalisation
entries = ("record", "filled)") ∷ ("other", "z") ∷ []

without_value : message_of (completed entries segments) ≡ "Will be filled) from ((table)), filled)"
without_value = refl

personalised-message_of_example :
    personalised (some entries) (message_of segments) ≡ message_of (completed entries segments)
personalised-message_of_example =
    personalised-message_of entries segments (ground arith) (ground arith)

abbrev state : EnpState RedisManager
state = new_enp_state

abbrev push_request : PushRequest
push_request = record {
  mobile_app = va_flagship_app;
  template_id = "s1";
  icn = "1234567890V123456";
  personalisation = none;
}

abbrev client : SnsClient Tables
client = record {
  enter = λ w. (ok tt, w);
  exit = λ w. (ok tt, w);
  publish = λ params w. (ok (("MessageId", "m1") ∷ []), w);
  create_platform_endpoint = λ arn token w. (ok [], w);
}

pushed :
    post_push collaborators state generous noon limiter limiter credentials push_request
      (fresh tables)
    ≡ (ok (reply_for push_request provider_aws), known tables)
unfolding post_push create_push_notification db_retry jwt_bearer get_token_issuer
    verify_service_token find_active_service find_api_keys get_service get_service_api_keys try_keys
    verify_key validate_service_api_key from_row enforce allows is_allowed consume_rate_limit_token
    attempt_token redis_retry get_key calculate_window_expiry ◌+ℤ◌
pushed = refl

post_push-IsUnsent_example :
    IsUnsent collaborators state generous noon limiter limiter client aws credentials push_request
      (fresh tables)
      (reply_for push_request provider_aws)
      (known tables)
post_push-IsUnsent_example =
    post_push-IsUnsent collaborators state generous noon limiter limiter client aws credentials
      push_request (fresh tables) (known tables) (reply_for push_request provider_aws) pushed

abbrev is_blank : Char → Bool
is_blank c = code c == 32

abbrev same_letter : Char → Char → Bool
same_letter letter c = code c == code letter || code c + 32 == code letter

numbered :
    vanity_check is_blank ascii_digit same_letter "800-555-0101 Ext 23" ≡ ok "800-555-0101 Ext 23"
unfolding vanity_check
numbered = refl

vanity :
    vanity_check is_blank ascii_digit same_letter "1-800-FLOWERS x5"
    ≡ err (value_error "value is not a valid phone number")
unfolding vanity_check
vanity = refl

vanity_check-ok_iff_example :
    (vanity_check is_blank ascii_digit same_letter "555-0101 x5" ≡ ok "555-0101 x5") ↔ (
      IsPlainNumber is_blank ascii_digit same_letter "555-0101 x5"
      × (◌≡◌ {A = String} "555-0101 x5" "555-0101 x5"))
vanity_check-ok_iff_example =
    vanity_check-ok_iff is_blank ascii_digit same_letter "555-0101 x5" "555-0101 x5"

abbrev no_recipient : EmailRequest
no_recipient = record {
  billing_code = none;
  callback_url = none;
  personalisation = none;
  recipient_identifier = none;
  reference = none;
  template_id = "t1";
  scheduled_for = none;
  email_address = none;
}

refused :
    email_or_recipient_id no_recipient
    ≡ err (value_error "You must specify one of \"email_address\" or \"recipient identifier\".")
unfolding email_or_recipient_id
refused = refl
