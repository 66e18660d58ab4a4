-- ===== src/Dao/Tests.antt =====
-- Runs of the methods of app/legacy/dao over tables in memory.
use va_enp_api.Prelude.{String, ◌≡◌, refl, true, none, some, [], ◌∷◌}
use va_enp_api.Constants.{sms, icn}
use va_enp_api.Effects.{non_retryable_error, err}
use va_enp_api.Cache.{AlruCache, no_cache}
use va_enp_api.Retry.{Tenacity, db_retry}
use va_enp_api.Retry.Samples.{simple_tenacity}
use va_enp_api.Dao.Rows.{
  operational_error, timeout_error, interface_error, integrity_error, ServiceRow, NotificationRow,
  RecipientIdentifier, TemplateRow,
}
use va_enp_api.Dao.Lookups.{
  get_service, get_service_api_keys, get_template, get_by_id_and_service_id, get_sms_sender,
  get_service_default, get_notification,
}
use va_enp_api.Dao.Writes.{create_notification, delete_notification, set_recipient_identifiers}
use va_enp_api.Dao.Samples.{Tables, tables_db, no_tables}
use va_enp_api.Dao.Laws.{IsContained, dao-IsContained, create_notification_failed}

abbrev tenacity : Tenacity Tables
tenacity = simple_tenacity Tables

abbrev clinic : ServiceRow
clinic = record { id = "s1"; name = "clinic"; active = true }

abbrev stored : Tables
stored = record no_tables { services = clinic ∷ [] }

abbrev down : Tables
down = record stored { faults = operational_error ∷ timeout_error ∷ interface_error ∷ [] }

abbrev message : NotificationRow
message = record {
  id = "n1";
  notification_type = sms;
  to = some "+18005550101";
  reply_to_text = "+18005550100";
  service_id = "s1";
  api_key_id = "k1";
  reference = none;
  template_id = "t1";
  template_version = 1;
  billable_units = 0;
  key_type = "normal";
  notification_status = "created";
  personalisation = none;
}

abbrev lower : String → String
lower s = s

-- The notification is there already, so an insert meets a duplicate key.
abbrev taken : Tables
taken = record stored { notifications = message ∷ [] }

abbrev veteran : RecipientIdentifier
veteran = record { id_type = icn; id_value = "1" }

abbrev rows : AlruCache Tables (String × String) TemplateRow
rows = no_cache Tables (String × String) TemplateRow

dao-IsContained_example :
    IsContained (get_service tenacity tables_db "s2" stored).0
    × IsContained (get_service_api_keys tenacity tables_db "s1" stored).0
    × IsContained (get_template tenacity tables_db "s2" stored).0
    × IsContained (get_by_id_and_service_id tenacity tables_db rows "s2" "s1" stored).0
    × IsContained (get_sms_sender tenacity tables_db "s2" stored).0
    × IsContained (get_service_default tenacity tables_db "s1" stored).0
    × IsContained (get_notification tenacity tables_db "s2" stored).0
    × IsContained (create_notification tenacity tables_db lower message stored).0
    × IsContained (delete_notification tenacity tables_db "s2" stored).0
    × IsContained (set_recipient_identifiers tenacity tables_db "s2" veteran stored).0
dao-IsContained_example =
    dao-IsContained tenacity tables_db lower rows "s2" "s1" message veteran stored

create_notification_failed_example :
    create_notification tenacity tables_db lower message taken
    ≡ (err (non_retryable_error none), taken)
create_notification_failed_example =
    create_notification_failed tenacity tables_db lower message taken taken
      (integrity_error "duplicate key value") refl refl

-- The database fails once, and the statement is not executed again.
down_once : get_service tenacity tables_db "s1" down ≡ (
  err (non_retryable_error none),
  record stored { faults = timeout_error ∷ interface_error ∷ [] },
)
unfolding get_service db_retry
down_once = refl
