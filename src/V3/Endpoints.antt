-- ===== src/V3/Endpoints.antt =====
-- app/v3: the handlers, behind the administrator's token that the router asks for, and
-- app/clients/va_profile.py.
use va_enp_api.Prelude.{String, Bool, true, Option, none, some, List, [], ◌∷◌, f_string}
use va_enp_api.Constants.{MobileAppType, OsPlatformType, response_400}
use va_enp_api.Effects.{
  Exception, attribute_error, Result, ok, err, Exec, pure, of_result, ◌>>=◌, ◌>>◌, item,
}
use va_enp_api.Auth.Service.{Collaborators}
use va_enp_api.Auth.Bearer.{Credentials, jwt_bearer_admin}
use va_enp_api.Providers.Schemas.{DeviceRegistrationModel}
use va_enp_api.Providers.Sns.{SnsClient, AwsSettings, register_device}
use va_enp_api.Routes.Handlers.{
  Failure, ErrorDetail, request_validation_error, http_error, other_failure,
}
use va_enp_api.State.{Provider, provider_aws, EnpState}
use va_enp_api.V3.Parts.{split_path, last_of}

-- app/v3/device_registrations/route_schema.py
pub record DeviceRegistrationRequest : Type 0 where
  pub device_name : String
  pub device_token : String
  pub app_name : MobileAppType
  pub os_name : OsPlatformType

-- The arguments of the background task, `register_device_with_vaprofile`.
pub record VaProfileTask : Type 0 where
  pub endpoint_sid : String
  pub device_name : String
  pub device_os : OsPlatformType
  pub app_name : MobileAppType
  pub token : String

-- It logs, and returns `True`.
abbrev pub register_device_with_vaprofile : VaProfileTask → Bool
register_device_with_vaprofile task = true

-- `DeviceRegistrationResponse`, and the tasks that run after it.
pub record DeviceReply : Type 0 where
  pub endpoint_sid : String
  pub background_tasks : List VaProfileTask

-- `response.split('/')[-1]`
abbrev pub endpoint_sid_of : Option String → Result Exception String
endpoint_sid_of none = err attribute_error
endpoint_sid_of (some arn) = last_of (split_path arn)

abbrev pub task_for : DeviceRegistrationRequest → String → VaProfileTask
task_for request endpoint_sid = record {
  endpoint_sid = endpoint_sid;
  device_name = request.device_name;
  device_os = request.os_name;
  app_name = request.app_name;
  token = request.device_token;
}

-- The end of the handler, with what the provider returned.
abbrev pub device_reply : DeviceRegistrationRequest → Option String → Result Exception DeviceReply
device_reply request response = elim (endpoint_sid_of response) [
  | err x ↦ err x
  | ok endpoint_sid ↦ ok (record {
    endpoint_sid = endpoint_sid;
    background_tasks = task_for request endpoint_sid ∷ [];
  })
]

abbrev pub model_for : DeviceRegistrationRequest → DeviceRegistrationModel
model_for request = record {
  platform_application_name = request.app_name;
  token = request.device_token;
}

module _ {W Manager : Type 0} (c : Collaborators W) (client : SnsClient W) (settings : AwsSettings)
    (state : EnpState Manager) where
  -- `provider.register_device`, of the class of the provider.
  abbrev pub provider_register_device :
      Provider → DeviceRegistrationModel → Exec W Exception (Option String)
  provider_register_device provider_aws = register_device c.tenacity client settings

  abbrev pub register_with : DeviceRegistrationRequest → Provider → Exec W Exception DeviceReply
  register_with request provider = do
    response ← provider_register_device provider (model_for request)
    of_result (device_reply request response)

  unfoldable pub create_device_registration :
      DeviceRegistrationRequest → Exec W Exception DeviceReply
  unfolding register_device
  create_device_registration request = do
    provider ← of_result (item "aws" state.providers)
    register_with request provider

  -- `POST /v3/device-registrations/`: the router's dependency comes first.
  unfoldable pub post_device_registration :
      Credentials → DeviceRegistrationRequest → Exec W Exception DeviceReply
  unfolding create_device_registration jwt_bearer_admin
  post_device_registration credentials request =
      jwt_bearer_admin c credentials >> create_device_registration request

-- app/v3/notifications: an identifier of a notification that is not stored, and the time.
pub record NotificationSingleRequest : Type 0 where
  pub to : String
  pub personalization : Option (List (String × String))
  pub template : String

pub record NotificationSingleResponse (Time : Type 0) : Type 0 where
  pub id : String
  pub created_at : Time
  pub updated_at : Time
  pub sent_at : Option Time
  pub to : String

module _ {W Time : Type 0} (c : Collaborators W) (now : W → Time × W) where
  -- `GET /v3/notifications/{notification_id}`
  unfoldable pub get_notification : Credentials → String → Exec W Exception String
  unfolding jwt_bearer_admin
  get_notification credentials notification_id =
      jwt_bearer_admin c credentials >> pure notification_id

  abbrev pub create_response :
      NotificationSingleRequest → Exec W Exception (NotificationSingleResponse Time)
  create_response request w =
      let (id, w₁) = c.uuid4 w in
      let (created_at, w₂) = now w₁ in
      let (updated_at, w₃) = now w₂ in
      (
        ok (record {
          id = id;
          created_at = created_at;
          updated_at = updated_at;
          sent_at = none;
          to = request.to;
        }),
        w₃,
      )

  -- `POST /v3/notifications/`
  unfoldable pub post_notification :
      Credentials → NotificationSingleRequest → Exec W Exception (NotificationSingleResponse Time)
  unfolding jwt_bearer_admin
  post_notification credentials request = jwt_bearer_admin c credentials >> create_response request

-- `TimedAPIRoute` of app/routers.py, apart from its log lines: `show` is the text of the exception.
module _ {Response : Type 0} (show : List ErrorDetail → String) where
  abbrev pub timed_answer : Result Failure Response → Result Failure Response
  timed_answer (ok response) = ok response
  timed_answer (err (request_validation_error errors)) =
      err (http_error 400 (f_string (response_400 ∷ " - " ∷ show errors ∷ [])))
  timed_answer (err (http_error status_code detail)) = err (http_error status_code detail)
  timed_answer (err other_failure) = err other_failure

  unfoldable pub timed_route_handler :
      {W : Type 0} → Exec W Failure Response → Exec W Failure Response
  timed_route_handler original w = let (r, w') = original w in (timed_answer r, w')
