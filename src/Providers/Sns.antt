-- ===== src/Providers/Sns.antt =====
-- app/providers/provider_base.py and app/providers/provider_aws.py, apart from their log lines. The
-- client of the AWS library is a parameter.
use va_enp_api.Prelude.{
  ℕ, String, Bool, false, Option, none, some, List, [], ◌∷◌, f_string, is_one_of, str_eq,
  if◌then◌else◌, is_some,
}
use va_enp_api.Constants.{mobile_app_value}
use va_enp_api.Effects.{
  Exception, retryable_error, non_retryable_error, Exec, pure, raise, of_result, catch, ◌>>=◌,
  async_with, item,
}
use va_enp_api.Retry.{Tenacity, policy, log_last_attempt_on_failure}
use va_enp_api.Providers.Schemas.{DeviceRegistrationModel, PushModel, PushRegistrationModel}

-- What the call of the client raises: `ClientError`, with the code of its response if there is one,
-- and any other `Exception`.
pub data SnsFault : Type 0 where
  client_error : Option String → SnsFault
  other_fault : SnsFault

-- The client that `create_client` makes, with its opening and closing. A response is a dictionary.
pub record SnsClient (W : Type 0) : Type 0 where
  pub enter : Exec W SnsFault (Unit {0})
  pub exit : Exec W SnsFault (Unit {0})
  pub publish : List (String × Option String) → Exec W SnsFault (List (String × String))
  pub create_platform_endpoint :
      (platform_application_arn token : String) → Exec W SnsFault (List (String × String))

-- The environment variables: AWS_REGION and MAX_RETRIES were read once, with their defaults; the
-- others are read at each call.
pub record AwsSettings : Type 0 where
  pub aws_region : String
  pub max_retries : ℕ
  pub aws_account_id : Option String
  pub aws_platform : Option String

-- `sns_publish_retriable_exceptions_set` of app/providers/__init__.py
abbrev pub sns_publish_retriable_exceptions_set : List String
sns_publish_retriable_exceptions_set =
    "InternalErrorException" ∷ "EndpointDisabledException" ∷ "PlatformApplicationDisabledException"
    ∷ "KMSDisabledException" ∷ "KMSInvalidStateException" ∷ "KMSThrottlingException" ∷ []

abbrev pub is_retriable_fault : SnsFault → Bool
is_retriable_fault (client_error (some code)) = is_one_of code sns_publish_retriable_exceptions_set
is_retriable_fault (client_error none) = false
is_retriable_fault other_fault = false

unfoldable pub handle_sns_exceptions : String → SnsFault → Exception
handle_sns_exceptions fail_message e =
    if is_retriable_fault e then retryable_error none else non_retryable_error (some fail_message)

-- `os.getenv(name, default)`
abbrev pub getenv : Option String → String → String
getenv none default = default
getenv (some given) default = given

-- `ProviderAWS.get_platform_application_arn`
unfoldable pub get_platform_application_arn : AwsSettings → String → String
get_platform_application_arn settings platform_application_id = f_string (
    "arn:aws:sns:"
    ∷ settings.aws_region
    ∷ ":"
    ∷ getenv settings.aws_account_id "000000000000"
    ∷ ":app/"
    ∷ getenv settings.aws_platform "APNS"
    ∷ "/"
    ∷ platform_application_id
    ∷ [])

-- The arguments of `publish`.
abbrev pub publish_params : PushModel → List (String × Option String)
publish_params model =
    ("Message", some model.message)
    ∷ (if is_some model.target_arn
        then ("TargetArn", model.target_arn)
        else ("TopicArn", model.topic_arn))
    ∷ []

-- `f'{target_arn or topic_arn}'`
abbrev pub either_arn : Option String → Option String → String
either_arn none topic_arn = getenv topic_arn "None"
either_arn (some target_arn) topic_arn =
    if str_eq target_arn "" then getenv topic_arn "None" else target_arn

abbrev pub push_failed : PushModel → String
push_failed model =
    f_string
      ("Failed to send a push notification to " ∷ either_arn model.target_arn model.topic_arn ∷ [])

abbrev pub registration_failed : PushRegistrationModel → String
registration_failed model =
    f_string
      ("Failed to register a push client with AWS SNS: " ∷ model.platform_application_arn ∷ [])

module _ {W : Type 0} (tenacity : Tenacity W) (client : SnsClient W) (settings : AwsSettings) where
  -- A call in its `try`, the client opened before and closed after it.
  abbrev pub call_sns :
      String → Exec W SnsFault (List (String × String)) → Exec W Exception (List (String × String))
  call_sns fail_message call =
      catch (async_with client.enter client.exit call)
        (λ e. raise (handle_sns_exceptions fail_message e))

  -- `response[key]` of a call, outside its `try`.
  abbrev pub sns_item :
      String → Exec W SnsFault (List (String × String)) → String → Exec W Exception String
  sns_item fail_message call key =
      call_sns fail_message call >>= λ response. of_result (item key response)

  -- `ProviderAWS._send_push`
  abbrev pub send_push : PushModel → Exec W Exception String
  send_push model = sns_item (push_failed model) (client.publish (publish_params model)) "MessageId"

  -- One attempt of `send_notification`: a `NonRetryableError` is logged and raised again.
  abbrev pub attempt_push : PushModel → Exec W Exception (Option String)
  attempt_push model = send_push model >>= λ reference. pure (some reference)

  -- `ProviderBase.send_notification`
  unfoldable pub send_notification : PushModel → Exec W Exception (Option String)
  send_notification model =
      tenacity.run (Option String) (policy (some log_last_attempt_on_failure) settings.max_retries)
        (attempt_push model)

  abbrev pub create_endpoint : PushRegistrationModel → Exec W Exception String
  create_endpoint model =
      sns_item (registration_failed model)
        (client.create_platform_endpoint model.platform_application_arn model.token) "EndpointArn"

  abbrev pub attempt_register : PushRegistrationModel → Exec W Exception (Option String)
  attempt_register model = create_endpoint model >>= λ endpoint_arn. pure (some endpoint_arn)

  -- `ProviderAWS.register_push_endpoint`
  unfoldable pub register_push_endpoint : PushRegistrationModel → Exec W Exception (Option String)
  register_push_endpoint model =
      tenacity.run (Option String) (policy (some log_last_attempt_on_failure) settings.max_retries)
        (attempt_register model)

  -- `ProviderAWS.register_device`
  unfoldable pub register_device : DeviceRegistrationModel → Exec W Exception (Option String)
  unfolding get_platform_application_arn
  register_device model = register_push_endpoint (record {
    platform_application_arn =
        get_platform_application_arn settings (mobile_app_value model.platform_application_name);
    token = model.token;
  })
