-- ===== src/Sms/Runs.antt =====
-- Runs of the SMS endpoint over collaborators in memory.
use va_enp_api.Prelude.{ℕ, suc, ◌≡◌, ◌↔◌, refl, none, some, [], ◌∷◌, All, f_string}
use va_enp_api.Prelude.Int.{◌+ℤ◌}
use va_enp_api.Constants.{sms, pid, response_500}
use va_enp_api.Effects.{Exception, http_exception, ok, err, Exec}
use va_enp_api.Retry.{db_retry, redis_retry}
use va_enp_api.Dao.Rows.{NotificationRow, operational_error}
use va_enp_api.Dao.Lookups.{
  get_service, get_service_api_keys, get_by_id_and_service_id, find_template_of_service,
  get_service_default,
}
use va_enp_api.Dao.Writes.{
  create_notification as dao_create_notification, set_recipient_identifiers,
}
use va_enp_api.Dao.Samples.{Tables, tables_db}
use va_enp_api.Auth.Secrets.{from_row}
use va_enp_api.Auth.Tokens.{get_token_issuer}
use va_enp_api.Auth.Service.{
  verify_key, validate_service_api_key, try_keys, verify_service_token, find_active_service,
  find_api_keys,
}
use va_enp_api.Auth.Bearer.{jwt_bearer}
use va_enp_api.Auth.Samples.{collaborators, fresh}
use va_enp_api.Redis.Client.{attempt_token, consume_rate_limit_token}
use va_enp_api.Limits.Strategies.{is_allowed, get_key, calculate_window_expiry}
use va_enp_api.Limits.Limiter.{enforce, allows}
use va_enp_api.Sms.Identifiers.{is_valid_recipient_id_value}
use va_enp_api.Sms.Requests.{
  SmsRequest, validated, validate_id, phone_number_or_recipient_id, find_sms_sender,
  get_reply_to_text,
}
use va_enp_api.Sms.Tasks.{
  direct_sms_task_resolver, identifier_sms_task_resolver, get_tasks, get_sms_task_resolver,
  deliver_sms, lookup_contact, lookup_profile,
}
use va_enp_api.Sms.Fields.{
  keys_of, collect_personalisation_from_template, validate_template_personalisation,
}
use va_enp_api.Sms.Personalising.{IsGiven, validate_template_personalisation-ok_iff}
use va_enp_api.Sms.Templates.{validate_template, find_valid_template}
use va_enp_api.Sms.Handler.{
  SmsCollaborators, Reply, response_for, create_notification, sms_post, post_sms,
}
use va_enp_api.Sms.Endpoint.{Passes, chained_depends-Passes}
use va_enp_api.Sms.Valid.{IsSmsRequest, validated-ok_iff}
use va_enp_api.Sms.Samples.{
  ascii_digit, lower, template, given, tables, sms_collaborators, veteran, request, known, generous,
  limiter, noon, credentials,
}

validate_template_personalisation-ok_iff_example :
    (validate_template_personalisation lower f_string template given ≡ ok tt)
    ↔ All (IsGiven lower (keys_of given)) (collect_personalisation_from_template "Dear ((name))")
validate_template_personalisation-ok_iff_example =
    validate_template_personalisation-ok_iff lower f_string template given

pub accepted : validated ascii_digit request ≡ ok request
unfolding validated validate_id phone_number_or_recipient_id is_valid_recipient_id_value
accepted = refl

validated-ok_iff_example :
    (validated ascii_digit request ≡ ok request)
    ↔ (IsSmsRequest ascii_digit request × (request ≡ request))
validated-ok_iff_example = validated-ok_iff ascii_digit request request

abbrev pub row : NotificationRow
row = record {
  id = "n1";
  notification_type = sms;
  to = none;
  reply_to_text = "+18005550100";
  service_id = "s1";
  api_key_id = "k1";
  reference = some "r1";
  template_id = "t1";
  template_version = 3;
  billable_units = 0;
  key_type = "normal";
  notification_status = "created";
  personalisation = some "{}";
}

abbrev pub after_all : Tables
after_all = record tables { notifications = row ∷ []; recipients = ("n1", veteran) ∷ [] }

abbrev pub reply : Reply
reply = record {
  response = response_for request "n1";
  background_tasks = lookup_profile "n1" ∷ lookup_contact "n1" ∷ deliver_sms "n1" ∷ [];
}

answered :
    sms_post sms_collaborators request (identifier_sms_task_resolver pid "12") (known tables)
    ≡ (ok reply, known after_all)
unfolding sms_post create_notification find_valid_template get_by_id_and_service_id
    find_template_of_service db_retry validate_template_personalisation
    collect_personalisation_from_template get_reply_to_text find_sms_sender get_service_default
    dao_create_notification set_recipient_identifiers get_tasks validate_template
answered = refl

-- The database does not answer when the row is inserted: the request is answered with status 500.
abbrev without_recipient : SmsRequest
without_recipient = record request {
  phone_number = some "+18005550199";
  recipient_identifier = none;
}

abbrev lossy : SmsCollaborators Tables
lossy = record sms_collaborators {
  auth = record collaborators {
    db = record tables_db { insert_notification = λ r w. (err operational_error, w) };
  };
}

unsaved_is_refused :
    sms_post lossy without_recipient (direct_sms_task_resolver "+18005550199") (known tables)
    ≡ (err (http_exception 500 response_500), known tables)
unfolding sms_post create_notification find_valid_template get_by_id_and_service_id
    find_template_of_service db_retry validate_template_personalisation
    collect_personalisation_from_template get_reply_to_text find_sms_sender get_service_default
    dao_create_notification set_recipient_identifiers get_tasks validate_template
unsaved_is_refused = refl

pub posted :
    post_sms sms_collaborators generous noon limiter limiter credentials request (fresh tables)
    ≡ (ok reply, known after_all)
unfolding post_sms sms_post create_notification find_valid_template get_by_id_and_service_id
    find_template_of_service db_retry validate_template_personalisation
    collect_personalisation_from_template get_reply_to_text find_sms_sender get_service_default
    dao_create_notification set_recipient_identifiers get_tasks validate_template
    get_sms_task_resolver jwt_bearer get_token_issuer verify_service_token find_active_service
    find_api_keys get_service get_service_api_keys try_keys verify_key validate_service_api_key
    from_row enforce allows is_allowed consume_rate_limit_token attempt_token redis_retry get_key
    calculate_window_expiry ◌+ℤ◌
posted = refl

abbrev counts_up : Exec ℕ Exception (Unit {0})
counts_up n = (ok tt, suc n)

chained_depends-Passes_example : Passes (counts_up ∷ counts_up ∷ []) 0 2
chained_depends-Passes_example = chained_depends-Passes (counts_up ∷ counts_up ∷ []) 0 2 refl
