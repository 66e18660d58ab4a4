-- ===== src/Sms/Handler.antt =====
-- The handler of an SMS request: `create_notification` and `ChainedDepends` of
-- app/legacy/v2/notifications/utils.py, and app/legacy/v2/notifications/rest.py.
use va_enp_api.Prelude.{ℕ, String, Option, none, some, List, [], ◌∷◌, f_string}
use va_enp_api.Constants.{response_500}
use va_enp_api.Effects.{
  Exception, non_retryable_error, http_exception, ok, Exec, pure, raise, of_result, catch, ◌>>=◌,
  ◌>>◌,
}
use va_enp_api.Cache.{AlruCache}
use va_enp_api.Dao.Rows.{TemplateRow, NotificationRow, RecipientIdentifier}
use va_enp_api.Dao.Writes.{
  Personalisation, serialized, create_notification as dao_create_notification,
  set_recipient_identifiers,
}
use va_enp_api.Auth.Service.{State, Collaborators, on_outside}
use va_enp_api.Auth.Bearer.{Credentials, jwt_bearer}
use va_enp_api.Redis.Server.{Redis}
use va_enp_api.Limits.Limiter.{RateLimiter, required, enforce}
use va_enp_api.Sms.Requests.{SmsRequest, get_channel, get_direct_contact_info, get_reply_to_text}
use va_enp_api.Sms.Tasks.{Task, SmsTaskResolver, get_tasks, get_sms_task_resolver}
use va_enp_api.Sms.Fields.{validate_template_personalisation}
use va_enp_api.Sms.Templates.{TemplateKey, validate_template}

-- What the handler uses of other parts and libraries, beside those of the authentication.
pub record SmsCollaborators (W : Type 0) : Type 1 where
  pub auth : Collaborators W
  pub senders : AlruCache W (Option String × String) String
  pub templates : AlruCache W TemplateKey TemplateRow
  pub template_rows : AlruCache W (String × String) TemplateRow
  pub lower : String → String
  pub join : List String → String
  pub serialize : Personalisation → String

pub record SmsResponse : Type 0 where
  pub id : String
  pub reference : Option String
  pub billing_code : Option String
  pub callback_url : Option String
  pub scheduled_for : Option String
  pub template_id : String
  pub template_uri : String
  pub uri : String
  pub body : String
  pub from_number : String

-- The response, and the tasks that `enqueue_notification_tasks` gets after it was sent.
pub record Reply : Type 0 where
  pub response : SmsResponse
  pub background_tasks : List Task

abbrev pub response_for : SmsRequest → String → SmsResponse
response_for request notification_id = record {
  id = notification_id;
  reference = request.reference;
  billing_code = request.billing_code;
  callback_url = request.callback_url;
  scheduled_for = request.scheduled_for;
  template_id = request.template_id;
  template_uri = f_string ("https://mock-notify.va.gov/templates/" ∷ request.template_id ∷ []);
  uri = f_string ("https://mock-notify.va.gov/notifications/" ∷ notification_id ∷ []);
  body = "";
  from_number = "+18005550101";
}

-- `except NonRetryableError` of `create_notification`.
abbrev pub server_error : Exception → Exception
server_error (non_retryable_error _) = http_exception 500 response_500
server_error x = x

-- `ChainedDepends`
abbrev pub chained_depends :
    {S : Type 0} → List (Exec S Exception (Unit {0})) → Exec S Exception (Unit {0})
chained_depends [] = pure tt
chained_depends (dep ∷ deps) = dep >> chained_depends deps

module _ {W : Type 0} (c : SmsCollaborators W) where
  -- The row that the arguments of the DAO make, with its defaults.
  abbrev pub row_for :
      String → TemplateRow → SmsRequest → String → String → String → NotificationRow
  row_for id template request reply_to_text service_id api_key_id = record {
    id = id;
    notification_type = get_channel request;
    to = get_direct_contact_info request;
    reply_to_text = reply_to_text;
    service_id = service_id;
    api_key_id = api_key_id;
    reference = request.reference;
    template_id = template.id;
    template_version = template.version;
    billable_units = 0;
    key_type = "normal";
    notification_status = "created";
    personalisation = serialized c.serialize request.personalisation;
  }

  abbrev pub save_recipient : String → Option RecipientIdentifier → Exec W Exception (Unit {0})
  save_recipient id none = pure tt
  save_recipient id (some recipient) =
      set_recipient_identifiers c.auth.tenacity c.auth.db id recipient

  abbrev pub save_notification : NotificationRow → Exec W Exception (Unit {0})
  save_notification row = dao_create_notification c.auth.tenacity c.auth.db c.lower row

  abbrev pub reply_to : SmsRequest → String → Exec W Exception String
  reply_to request service_id =
      get_reply_to_text c.auth.tenacity c.auth.db c.senders request service_id

  -- The body of the `try` in `create_notification`.
  abbrev pub create_body : String → TemplateRow → SmsRequest → Exec (State W) Exception (Unit {0})
  create_body id template request = do
    context ← λ s. (ok s.context, s)
    service_id ← of_result (required context.service_id)
    reply_to_text ← on_outside (reply_to request service_id)
    api_key_id ← of_result (required context.api_key_id)
    saved ←
        on_outside
          (save_notification (row_for id template request reply_to_text service_id api_key_id))
    on_outside (save_recipient id request.recipient_identifier)

  unfoldable pub create_notification :
      String → TemplateRow → SmsRequest → Exec (State W) Exception (Unit {0})
  create_notification id template request =
      catch (create_body id template request) (λ x. raise (server_error x))

  -- `_sms_post`
  unfoldable pub sms_post : SmsRequest → SmsTaskResolver → Exec (State W) Exception Reply
  unfolding create_notification get_tasks validate_template_personalisation
  sms_post request sms_task_resolver = do
    context ← λ s. (ok s.context, s)
    service_id ← of_result (required context.service_id)
    notification_id ← of_result (required context.request_id)
    template ← on_outside (
        validate_template c.auth.tenacity c.auth.db c.template_rows c.templates request.template_id
          service_id (get_channel request))
    given ←
        of_result
          (validate_template_personalisation c.lower c.join template request.personalisation)
    created ← create_notification notification_id template request
    pure (record {
      response = response_for request notification_id;
      background_tasks = get_tasks sms_task_resolver notification_id;
    })

  -- `legacy_notification_post_handler` behind the dependencies of its router, for a valid request.
  unfoldable pub post_sms :
      Redis W
      → (W → ℕ)
      → RateLimiter
      → RateLimiter
      → Credentials
      → SmsRequest
      → Exec (State W) Exception Reply
  unfolding sms_post get_sms_task_resolver
  post_sms redis now service_limiter daily_limiter credentials request = do
    passed ← chained_depends (
        jwt_bearer c.auth credentials
        ∷ enforce redis c.auth.tenacity now service_limiter
        ∷ enforce redis c.auth.tenacity now daily_limiter
        ∷ [])
    sms_task_resolver ← of_result (get_sms_task_resolver request)
    sms_post request sms_task_resolver
