-- ===== src/V3/Tests.antt =====
-- Runs of version 3 of the API, with a client of SNS that answers and one that is refused.
use va_enp_api.Prelude.{◌≡◌, refl, none, some, [], ◌∷◌, f_string}
use va_enp_api.Constants.{va_flagship_app, ios}
use va_enp_api.Effects.{attribute_error, retryable_error, ok, err}
use va_enp_api.Retry.Outcomes.{last_fails, fails}
use va_enp_api.Retry.Samples.{simple_tenacity}
use va_enp_api.Dao.Samples.{Tables, no_tables}
use va_enp_api.Auth.Tokens.{verify_admin_token}
use va_enp_api.Auth.Bearer.{Credentials, jwt_bearer_admin}
use va_enp_api.Auth.Admin.{IsAdmin}
use va_enp_api.Auth.Samples.{claims, collaborators}
use va_enp_api.Providers.Sns.{
  SnsClient, client_error, handle_sns_exceptions, get_platform_application_arn, register_device,
  register_push_endpoint,
}
use va_enp_api.Providers.Samples.{aws}
use va_enp_api.Start.Lifespan.{RedisManager}
use va_enp_api.State.{EnpState, new_enp_state}
use va_enp_api.V3.Endpoints.{
  DeviceRegistrationRequest, DeviceReply, task_for, model_for, create_device_registration,
  post_device_registration,
}
use va_enp_api.V3.Devices.{
  IsRegistered, post_device_registration-ok, post_device_registration_answers,
  post_device_registration_exhausted,
}

abbrev steady : SnsClient Tables
steady = record {
  enter = λ w. (ok tt, w);
  exit = λ w. (ok tt, w);
  publish = λ params w. (ok [], w);
  create_platform_endpoint = λ arn token w.
      (ok (("EndpointArn", f_string ("arn:aws:sns:endpoint/APNS/" ∷ token ∷ [])) ∷ []), w);
}

abbrev refused : SnsClient Tables
refused = record {
  enter = λ w. (ok tt, w);
  exit = λ w. (ok tt, w);
  publish = λ params w. (ok [], w);
  create_platform_endpoint = λ arn token w. (err (client_error (some "InternalErrorException")), w);
}

abbrev state : EnpState RedisManager
state = new_enp_state

abbrev request : DeviceRegistrationRequest
request = record {
  device_name = "phone";
  device_token = "t7";
  app_name = va_flagship_app;
  os_name = ios;
}

abbrev admin : Credentials
admin = ok (some "not-very-secret")

abbrev reply : DeviceReply
reply = record { endpoint_sid = "t7"; background_tasks = task_for request "t7" ∷ [] }

registered :
    post_device_registration collaborators steady aws state admin request no_tables
    ≡ (ok reply, no_tables)
unfolding post_device_registration create_device_registration register_device register_push_endpoint
    jwt_bearer_admin verify_admin_token get_platform_application_arn
registered = refl

is_admin : IsAdmin collaborators admin no_tables
is_admin = record { token = "not-very-secret"; payload = claims; given = refl; signed = refl }

post_device_registration-ok_example :
    IsAdmin collaborators admin no_tables
    × IsRegistered collaborators steady aws state request no_tables reply no_tables
post_device_registration-ok_example =
    post_device_registration-ok collaborators steady aws state admin request no_tables no_tables
      reply registered

post_device_registration_exhausted_example :
    post_device_registration collaborators refused aws state admin request no_tables
    ≡ (err attribute_error, no_tables)
unfolding handle_sns_exceptions
post_device_registration_exhausted_example =
    post_device_registration_exhausted collaborators refused aws state admin request 2 no_tables
      no_tables (retryable_error none) is_admin refl refl
      (fails {x = retryable_error none} refl refl
        (fails {x = retryable_error none} refl refl (last_fails refl refl)))

arn_of_phone :
    register_device (simple_tenacity Tables) steady aws (model_for request) no_tables
    ≡ (ok (some "arn:aws:sns:endpoint/APNS/t7"), no_tables)
unfolding register_device register_push_endpoint get_platform_application_arn
arn_of_phone = refl

post_device_registration_answers_example :
    (answer : DeviceReply) × (post_device_registration collaborators steady aws state admin request
        no_tables
      ≡ (ok answer, no_tables))
post_device_registration_answers_example =
    post_device_registration_answers collaborators steady aws state admin request no_tables
      no_tables "arn:aws:sns:endpoint/APNS/t7" is_admin refl arn_of_phone
