-- ===== src/Sms/Tasks.antt =====
-- The tasks of an SMS notification: app/legacy/v2/notifications/resolvers.py.
use va_enp_api.Prelude.{
  String, Bool, true, false, not, none, some, List, [], ◌∷◌, ◌++◌, if◌then◌else◌,
}
use va_enp_api.Constants.{
  IdentifierType, va_profile_id, queue_name_value, lookup_contact_info, lookup_va_profile_id,
  send_sms,
}
use va_enp_api.Effects.{Exception, other_error, Result, ok, err}
use va_enp_api.Sms.Requests.{SmsRequest}

-- `(queue, (task, notification_id))`
pub record Task : Type 0 where
  pub queue : String
  pub name : String
  pub notification_id : String

pub data SmsTaskResolver : Type 0 where
  direct_sms_task_resolver : String → SmsTaskResolver
  identifier_sms_task_resolver : IdentifierType → String → SmsTaskResolver

abbrev pub deliver_sms : String → Task
deliver_sms id = record {
  queue = queue_name_value send_sms;
  name = "deliver_sms";
  notification_id = id;
}

abbrev pub lookup_profile : String → Task
lookup_profile id = record {
  queue = queue_name_value lookup_va_profile_id;
  name = "lookup-va-profile-id-tasks";
  notification_id = id;
}

abbrev pub lookup_contact : String → Task
lookup_contact id = record {
  queue = queue_name_value lookup_contact_info;
  name = "lookup-contact-info-tasks";
  notification_id = id;
}

abbrev pub is_va_profile_id : IdentifierType → Bool
is_va_profile_id va_profile_id = true
is_va_profile_id _ = false

unfoldable pub get_tasks : SmsTaskResolver → String → List Task
get_tasks (direct_sms_task_resolver phone_number) id = deliver_sms id ∷ []
get_tasks (identifier_sms_task_resolver id_type id_value) id =
    (if not (is_va_profile_id id_type) then lookup_profile id ∷ [] else [])
    ++ lookup_contact id ∷ deliver_sms id ∷ []

unfoldable pub get_sms_task_resolver : SmsRequest → Result Exception SmsTaskResolver
get_sms_task_resolver request = elim request.phone_number [
  | some phone_number ↦ ok (direct_sms_task_resolver phone_number)
  | none ↦ elim request.recipient_identifier [
    | none ↦ err (other_error "AssertionError")
    | some r ↦ ok (identifier_sms_task_resolver r.id_type r.id_value)
  ]
]
