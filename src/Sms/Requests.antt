-- ===== src/Sms/Requests.antt =====
-- The SMS request of app/legacy/v2/notifications/route_schema.py: its validators, and what the
-- handler asks of it. Pydantic's conversions of the fields are not modelled.
use va_enp_api.Prelude.{
  String, Bool, ◌&&◌, not, Option, none, some, [], ◌∷◌, is_some, f_string, if◌then◌else◌,
}
use Prim.Native.Char.{Char}
use va_enp_api.Constants.{NotificationType, sms}
use va_enp_api.Effects.{
  Exception, non_retryable_error, http_exception, value_error, Result, ok, err, Exec, raise, pure,
  catch, ◌>>=◌,
}
use va_enp_api.Retry.{Tenacity}
use va_enp_api.Cache.{AlruCache}
use va_enp_api.Dao.Rows.{SmsSenderRow, RecipientIdentifier, Database}
use va_enp_api.Dao.Lookups.{get_sms_sender, get_service_default}
use va_enp_api.Dao.Writes.{Personalisation}
use va_enp_api.Sms.Identifiers.{is_valid_recipient_id_value}

pub record SmsRequest : Type 0 where
  pub billing_code : Option String
  pub callback_url : Option String
  pub personalisation : Option Personalisation
  pub recipient_identifier : Option RecipientIdentifier
  pub reference : Option String
  pub template_id : String
  pub scheduled_for : Option String
  pub phone_number : Option String
  pub sms_sender_id : Option String

-- `RecipientIdentifierModel.validate_id`
unfoldable pub validate_id :
    (Char → Bool) → RecipientIdentifier → Result Exception RecipientIdentifier
unfolding is_valid_recipient_id_value
validate_id is_decimal r =
    if not (is_valid_recipient_id_value is_decimal r.id_type r.id_value)
    then err (value_error "Invalid id_value for id_type")
    else ok r

-- `V2PostSmsRequestModel.phone_number_or_recipient_id`
unfoldable pub phone_number_or_recipient_id : SmsRequest → Result Exception SmsRequest
phone_number_or_recipient_id request =
    if not (is_some request.phone_number) && not (is_some request.recipient_identifier)
    then err (value_error "Please provide either a phone number or recipient identifier.")
    else ok request

-- The validators of a request, those of its parts first.
abbrev pub valid_identifier :
    (Char → Bool) → Option RecipientIdentifier → Result Exception (Option RecipientIdentifier)
valid_identifier is_decimal none = ok none
valid_identifier is_decimal (some r) = elim (validate_id is_decimal r) [
  | err x ↦ err x
  | ok _ ↦ ok (some r)
]

unfoldable pub validated : (Char → Bool) → SmsRequest → Result Exception SmsRequest
unfolding validate_id phone_number_or_recipient_id
validated is_decimal request = elim (valid_identifier is_decimal request.recipient_identifier) [
  | err x ↦ err x
  | ok _ ↦ phone_number_or_recipient_id request
]

abbrev pub get_channel : SmsRequest → NotificationType
get_channel request = sms

abbrev pub get_direct_contact_info : SmsRequest → Option String
get_direct_contact_info request = request.phone_number

-- `f'{sms_sender_id}'`
abbrev str_of_id : Option String → String
str_of_id none = "None"
str_of_id (some id) = id

abbrev pub no_such_sender : Option String → String → Exception → Exception
no_such_sender sms_sender_id service_id (non_retryable_error _) = http_exception 400 (
    f_string (
      "sms_sender_id "
      ∷ str_of_id sms_sender_id
      ∷ " does not exist in database for service id "
      ∷ service_id
      ∷ []))
no_such_sender sms_sender_id service_id x = x

module _ {W : Type 0} (tenacity : Tenacity W) (db : Database W) where
  abbrev pub select_sender : Option String → String → Exec W Exception SmsSenderRow
  select_sender (some sms_sender_id) service_id = get_sms_sender tenacity db sms_sender_id
  select_sender none service_id = get_service_default tenacity db service_id

  -- The body of `_get_sms_sender`.
  unfoldable pub find_sms_sender : Option String × String → Exec W Exception String
  find_sms_sender (sms_sender_id, service_id) = do
    row ← select_sender sms_sender_id service_id
    pure row.sms_sender

  unfoldable pub get_reply_to_text :
      AlruCache W (Option String × String) String → SmsRequest → String → Exec W Exception String
  get_reply_to_text senders request service_id =
      catch (senders.call find_sms_sender (request.sms_sender_id, service_id))
        (λ x. raise (no_such_sender request.sms_sender_id service_id x))
