-- ===== src/Sms/Emails.antt =====
-- The e-mail request of app/legacy/v2/notifications/route_schema.py: its validator, and what the
-- routes would ask of it. No route takes one yet.
use va_enp_api.Prelude.{String, ◌&&◌, ◌||◌, not, Option, none, some, is_some, if◌then◌else◌}
use va_enp_api.Constants.{NotificationType, email}
use va_enp_api.Effects.{Exception, value_error, Result, ok, err, Exec, of_result, ◌>>=◌}
use va_enp_api.Retry.{Tenacity}
use va_enp_api.Dao.Rows.{TemplateRow, RecipientIdentifier, Database}
use va_enp_api.Dao.Lookups.{get_template}
use va_enp_api.Dao.Writes.{Personalisation}

pub record EmailRequest : Type 0 where
  pub billing_code : Option String
  pub callback_url : Option String
  pub personalisation : Option Personalisation
  pub recipient_identifier : Option RecipientIdentifier
  pub reference : Option String
  pub template_id : String
  pub scheduled_for : Option String
  pub email_address : Option String

-- `V2PostEmailRequestModel.email_or_recipient_id`
unfoldable pub email_or_recipient_id : EmailRequest → Result Exception EmailRequest
email_or_recipient_id request =
    if not (is_some request.email_address) && not (is_some request.recipient_identifier)
      || is_some request.email_address && is_some request.recipient_identifier
    then err (value_error "You must specify one of \"email_address\" or \"recipient identifier\".")
    else ok request

abbrev pub email_contact_info : EmailRequest → Option String
email_contact_info request = request.email_address

abbrev pub email_channel : EmailRequest → NotificationType
email_channel request = email

-- `str(row.reply_to_text)`
abbrev pub reply_to_text_of : TemplateRow → Result Exception String
reply_to_text_of row = elim row.reply_to_text [ none ↦ ok "None" | some text ↦ ok text ]

unfoldable pub email_reply_to_text :
    {W : Type 0} → Tenacity W → Database W → EmailRequest → Exec W Exception String
unfolding get_template
email_reply_to_text tenacity db request = do
  row ← get_template tenacity db request.template_id
  of_result (reply_to_text_of row)
