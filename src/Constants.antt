-- ===== src/Constants.antt =====
-- app/constants.py: the enumerations and the texts of the responses.
use va_enp_api.Prelude.{String, Bool, List, [], ◌∷◌, f_string, is_one_of}

pub data AttachmentType : Type 0 where
  attach link : AttachmentType

pub data IdentifierType : Type 0 where
  birlsid edipi icn pid va_profile_id : IdentifierType

pub data MobileAppType : Type 0 where
  va_flagship_app vetext : MobileAppType

abbrev pub mobile_app_value : MobileAppType → String
mobile_app_value va_flagship_app = "VA_FLAGSHIP_APP"
mobile_app_value vetext = "VETEXT"

pub data OsPlatformType : Type 0 where
  android ios : OsPlatformType

pub data NotificationType : Type 0 where
  email push sms : NotificationType

-- `str(t)` of a `StrEnum`
abbrev pub notification_type_value : NotificationType → String
notification_type_value email = "email"
notification_type_value push = "push"
notification_type_value sms = "sms"

pub data QueueNames : Type 0 where
  lookup_contact_info lookup_va_profile_id send_sms : QueueNames

abbrev pub queue_name_value : QueueNames → String
queue_name_value lookup_contact_info = "lookup-contact-info-tasks"
queue_name_value lookup_va_profile_id = "lookup-va-profile-id-tasks"
queue_name_value send_sms = "send-sms-tasks"

abbrev pub wrong_type : String
wrong_type = "Invalid token: service id is not the right data type"

abbrev pub no_service : String
no_service = "Invalid token: service not found"

abbrev pub archived_service : String
archived_service = "Invalid token: service is archived"

abbrev pub not_found : String
not_found = "Invalid token: signature, api token not found"

abbrev pub not_valid : String
not_valid = "Invalid token: signature, api token is not valid"

abbrev pub no_iss : String
no_iss = "Invalid token: iss field not provided"

abbrev pub no_keys : String
no_keys = "Invalid token: service has no API keys"

abbrev pub key_revoked : String
key_revoked = "Invalid token: API key revoked"

abbrev pub system_clock : String
system_clock = "Error: Your system clock must be accurate to within 30 seconds"

abbrev pub no_credentials : String
no_credentials = "Unauthorized, authentication token must be provided"

abbrev pub response_429 : String
response_429 = "Rate limit exceeded"

abbrev pub response_500 : String
response_500 = "Server error"

abbrev pub response_400 : String
response_400 = "Bad request"

abbrev pub response_403 : String
response_403 = "Not authenticated"

abbrev pub response_404 : String
response_404 = "Not found"

-- `QUEUE_PREFIX`, of the environment's name.
abbrev pub queue_prefix_of : String → String
queue_prefix_of env = f_string (env ∷ "-notification-" ∷ [])

abbrev pub deployment_envs : List String
deployment_envs = "dev" ∷ "perf" ∷ "staging" ∷ "prod" ∷ []

-- `SERIALIZE` of app/logging/logging_config.py: whether the sinks write JSON.
abbrev pub serialize_lines : String → Bool
serialize_lines env = is_one_of env deployment_envs
