-- ===== src/Sms/Push.antt =====
-- The push endpoint of app/legacy/v2/notifications/rest.py, and its background task in
-- app/legacy/v2/notifications/utils.py.
use Prim.Native.Char.{code}
use Prim.Native.Nat.{ℕ, zero, suc, ◌-◌}
use Prim.Native.String
use Prim.Native.String.{String}
use va_enp_api.Prelude.{
  Bool, true, false, ◌&&◌, ◌==◌, Option, none, some, List, [], ◌∷◌, f_string, if◌then◌else◌,
}
use va_enp_api.Constants.{MobileAppType}
use va_enp_api.Effects.{
  Exception, value_error, not_implemented_error, Result, ok, err, Exec, pure, raise, of_result,
  catch, ◌>>=◌, ◌>>◌, is_app_error, item,
}
use va_enp_api.Retry.{Tenacity}
use va_enp_api.Dao.Writes.{Personalisation}
use va_enp_api.Auth.Secrets.{text_length}
use va_enp_api.Auth.Service.{State, Collaborators}
use va_enp_api.Auth.Bearer.{Credentials, jwt_bearer}
use va_enp_api.Redis.Server.{Redis}
use va_enp_api.Limits.Limiter.{RateLimiter, enforce}
use va_enp_api.Providers.Schemas.{PushModel, check_arn}
use va_enp_api.Providers.Sns.{SnsClient, AwsSettings, send_notification}
use va_enp_api.State.{Provider, provider_aws, EnpState}
use va_enp_api.Sms.Handler.{chained_depends}

-- `V2PostPushRequestModel`, with the value of its identifier, which is an ICN.
pub record PushRequest : Type 0 where
  pub mobile_app : MobileAppType
  pub template_id : String
  pub icn : String
  pub personalisation : Option Personalisation

-- Whether the text starts with the other one.
abbrev pub begins : String → String → Bool
begins s String.[] = true
begins String.[] (String.◌∷◌ d t) = false
begins (String.◌∷◌ c s) (String.◌∷◌ d t) = code c == code d && begins s t

-- `s.replace(old, new)` of a text that is not empty, from the first character on that is not yet
-- replaced.
module _ (old new : String) where
  abbrev pub replace_from : ℕ → String → String
  replace_from skip String.[] = ""
  replace_from (suc skip) (String.◌∷◌ c s) = replace_from skip s
  replace_from zero (String.◌∷◌ c s) =
      let rest = replace_from zero s in
      let replaced = replace_from (text_length old - 1) s in
      if begins (String.◌∷◌ c s) old then String.◌++◌ new replaced else String.◌∷◌ c rest

abbrev pub replace_text : String → String → String → String
replace_text old new s = replace_from old new 0 s

-- `f'(({key}))'`
abbrev pub mark : String → String
mark key = f_string ("((" ∷ key ∷ "))" ∷ [])

-- The loop over the personalisation, each value as its text.
abbrev pub filled : Personalisation → String → String
filled [] message = message
filled ((key, value) ∷ entries) message = filled entries (replace_text (mark key) value message)

unfoldable pub personalised : Option Personalisation → String → String
personalised none message = message
personalised (some entries) message = filled entries message

-- Not written yet.
abbrev pub get_arn_from_icn : {W : Type 0} → String → Exec W Exception String
get_arn_from_icn icn = raise (not_implemented_error "get_arn_from_icn has not been implemented.")

abbrev pub validate_push_template : {W : Type 0} → String → Exec W Exception (Unit {0})
validate_push_template template_id =
    raise (not_implemented_error "validate_push_template has not been implemented.")

abbrev pub logged_error : {W : Type 0} → Exception → Exec W Exception (Option String)
logged_error x = if is_app_error x then pure none else raise x

-- The arguments of the background task.
pub record PushTask : Type 0 where
  pub personalization : Option Personalisation
  pub recipient_identifier : String
  pub message : String
  pub provider : Provider

module _ {W : Type 0} (tenacity : Tenacity W) (client : SnsClient W) (settings : AwsSettings) where
  abbrev pub provider_send : Provider → PushModel → Exec W Exception (Option String)
  provider_send provider_aws = send_notification tenacity client settings

  unfoldable pub send_push_notification_helper : PushTask → Exec W Exception (Option String)
  unfolding personalised check_arn send_notification
  send_push_notification_helper task = do
    target_arn ← get_arn_from_icn task.recipient_identifier
    push_model ← of_result (
        check_arn (record {
          message = personalised task.personalization task.message;
          target_arn = some target_arn;
          topic_arn = none;
        }))
    catch (provider_send task.provider push_model) logged_error

-- `UUID(text)`, which raises `ValueError`.
abbrev pub parsed_uuid : (String → Option String) → String → Result Exception String
parsed_uuid uuid s = elim (uuid s) [
  | none ↦ err (value_error "badly formed hexadecimal UUID string")
  | some id ↦ ok id
]

-- The response, and the task that runs after it was sent.
pub record PushReply : Type 0 where
  pub result : String
  pub background_tasks : List PushTask

abbrev pub push_task_for : PushRequest → Provider → PushTask
push_task_for request provider = record {
  personalization = request.personalisation;
  recipient_identifier = request.icn;
  message = "Temporary string - Will be ((record)) from a push template ((table))";
  provider = provider;
}

abbrev pub reply_for : PushRequest → Provider → PushReply
reply_for request provider = record {
  result = "success";
  background_tasks = push_task_for request provider ∷ [];
}

module _ {W Manager : Type 0} (c : Collaborators W) (state : EnpState Manager) where
  unfoldable pub create_push_notification : PushRequest → Exec (State W) Exception PushReply
  create_push_notification request = do
    template_id ← of_result (parsed_uuid c.uuid request.template_id)
    provider ← of_result (item "aws" state.providers)
    pure (reply_for request provider)

  -- `POST /legacy/v2/notifications/push`, behind the dependencies of its router.
  unfoldable pub post_push :
      Redis W
      → (W → ℕ)
      → RateLimiter
      → RateLimiter
      → Credentials
      → PushRequest
      → Exec (State W) Exception PushReply
  unfolding create_push_notification
  post_push redis now service_limiter daily_limiter credentials request =
      chained_depends (
        jwt_bearer c credentials
        ∷ enforce redis c.tenacity now service_limiter
        ∷ enforce redis c.tenacity now daily_limiter
        ∷ [])
      >> create_push_notification request
