-- ===== src/Dao/Lookups.antt =====
-- The methods that read: app/legacy/dao/services_dao.py, api_keys_dao.py, templates_dao.py,
-- service_sms_sender_dao.py and `get` of notifications_dao.py. Each is a public method over one
-- that `db_retry` decorates.
use va_enp_api.Prelude.{String, some, List}
use va_enp_api.Effects.{Exception, retryable_error, non_retryable_error, Exec}
use va_enp_api.Retry.{Tenacity, db_retry}
use va_enp_api.Cache.{AlruCache}
use va_enp_api.Dao.Rows.{
  DbFault, no_result_found, multiple_results_found, data_error, integrity_error, operational_error,
  interface_error, timeout_error, sqlalchemy_error, not_sqlalchemy, ServiceRow, ApiKeyRow,
  TemplateRow, SmsSenderRow, NotificationRow, Database, statement, public,
}

-- `raise RetryableError(message)`, `raise NonRetryableError(message)`
abbrev pub transient : String → Exception
transient message = retryable_error (some message)

abbrev pub permanent : String → Exception
permanent message = non_retryable_error (some message)

-- The `except` clauses of the methods that name `NoResultFound` and `MultipleResultsFound`.
abbrev pub row_fault : String → String → String → DbFault → Exception
row_fault invalid busy unexpected no_result_found = permanent invalid
row_fault invalid busy unexpected multiple_results_found = permanent invalid
row_fault invalid busy unexpected (data_error _) = permanent invalid
row_fault invalid busy unexpected (integrity_error _) = permanent unexpected
row_fault invalid busy unexpected operational_error = transient busy
row_fault invalid busy unexpected interface_error = transient busy
row_fault invalid busy unexpected timeout_error = transient busy
row_fault invalid busy unexpected sqlalchemy_error = permanent unexpected
row_fault invalid busy unexpected (not_sqlalchemy x) = x

-- The `except` clauses of the methods that name `IntegrityError` and `DataError`.
abbrev pub data_fault : String → String → String → DbFault → Exception
data_fault invalid busy unexpected no_result_found = permanent unexpected
data_fault invalid busy unexpected multiple_results_found = permanent unexpected
data_fault invalid busy unexpected (data_error _) = permanent invalid
data_fault invalid busy unexpected (integrity_error _) = permanent invalid
data_fault invalid busy unexpected operational_error = transient busy
data_fault invalid busy unexpected interface_error = transient busy
data_fault invalid busy unexpected timeout_error = transient busy
data_fault invalid busy unexpected sqlalchemy_error = permanent unexpected
data_fault invalid busy unexpected (not_sqlalchemy x) = x

abbrev pub service_fault : DbFault → Exception
service_fault =
    row_fault "Service lookup failed: invalid or unexpected data."
      "Service lookup failed due to a transient database error."
      "Unexpected SQLAlchemy error during service lookup."

-- This method names `DataError` alone.
abbrev pub api_keys_fault : DbFault → Exception
api_keys_fault (integrity_error _) =
    permanent "Uexpected SQLAlchemy error during service API keys lookup."
api_keys_fault fault =
    data_fault "Service API keys lookup failed, invalid or unexpected data"
      "Service API keys lookup failed due to a transient database error."
      "Uexpected SQLAlchemy error during service API keys lookup." fault

abbrev pub template_fault : DbFault → Exception
template_fault =
    row_fault "Template lookup failed: invalid or unexpected data."
      "Template lookup failed due to a transient database error."
      "Unexpected SQLAlchemy error during template lookup."

abbrev pub sms_sender_fault : DbFault → Exception
sms_sender_fault =
    data_fault "Service lookup failed: invalid or unexpected data."
      "Service lookup failed due to a transient database error."
      "Unexpected SQLAlchemy error during service lookup."

abbrev pub notification_fault : DbFault → Exception
notification_fault =
    data_fault "Notification lookup failed: invalid or unexpected data."
      "Notification lookup failed due to a transient database error."
      "Unexpected SQLAlchemy error during notification lookup."

module _ {W : Type 0} (tenacity : Tenacity W) (db : Database W) where
  -- `LegacyServiceDao._get` and `get`
  pub get_service_row : String → Exec W Exception ServiceRow
  get_service_row id = db_retry tenacity ServiceRow (statement (db.select_service id) service_fault)

  unfoldable pub get_service : String → Exec W Exception ServiceRow
  unfolding get_service_row
  get_service id = public (get_service_row id)

  -- `LegacyApiKeysDao._get_api_keys_for_service` and `get_service_api_keys`
  pub get_api_keys_for_service : String → Exec W Exception (List ApiKeyRow)
  get_api_keys_for_service service_id =
      db_retry tenacity (List ApiKeyRow) (statement (db.select_api_keys service_id) api_keys_fault)

  unfoldable pub get_service_api_keys : String → Exec W Exception (List ApiKeyRow)
  unfolding get_api_keys_for_service
  get_service_api_keys service_id = public (get_api_keys_for_service service_id)

  -- `LegacyTemplateDao._get` and `get`
  pub get_template_row : String → Exec W Exception TemplateRow
  get_template_row id =
      db_retry tenacity TemplateRow (statement (db.select_template id) template_fault)

  unfoldable pub get_template : String → Exec W Exception TemplateRow
  unfolding get_template_row
  get_template id = public (get_template_row id)

  -- `LegacyTemplateDao._get_by_id_and_service_id` and `get_by_id_and_service_id`, its body and the
  -- cached function.
  pub get_template_row_of_service : String → String → Exec W Exception TemplateRow
  get_template_row_of_service id service_id =
      db_retry tenacity TemplateRow
        (statement (db.select_template_of_service id service_id) template_fault)

  unfoldable pub find_template_of_service : String × String → Exec W Exception TemplateRow
  unfolding get_template_row_of_service
  find_template_of_service (id, service_id) = public (get_template_row_of_service id service_id)

  unfoldable pub get_by_id_and_service_id :
      AlruCache W (String × String) TemplateRow → String → String → Exec W Exception TemplateRow
  unfolding find_template_of_service
  get_by_id_and_service_id rows id service_id = rows.call find_template_of_service (id, service_id)

  -- `LegacyServiceSmsSenderDao._get`, `get`, `_get_service_default` and `get_service_default`
  pub get_sms_sender_row : String → Exec W Exception SmsSenderRow
  get_sms_sender_row id =
      db_retry tenacity SmsSenderRow (statement (db.select_sms_sender id) sms_sender_fault)

  unfoldable pub get_sms_sender : String → Exec W Exception SmsSenderRow
  unfolding get_sms_sender_row
  get_sms_sender id = public (get_sms_sender_row id)

  pub get_service_default_row : String → Exec W Exception SmsSenderRow
  get_service_default_row service_id =
      db_retry tenacity SmsSenderRow
        (statement (db.select_default_sms_sender service_id) sms_sender_fault)

  unfoldable pub get_service_default : String → Exec W Exception SmsSenderRow
  unfolding get_service_default_row
  get_service_default service_id = public (get_service_default_row service_id)

  -- `LegacyNotificationDao._get` and `get`
  pub get_notification_row : String → Exec W Exception NotificationRow
  get_notification_row id =
      db_retry tenacity NotificationRow (statement (db.select_notification id) notification_fault)

  unfoldable pub get_notification : String → Exec W Exception NotificationRow
  unfolding get_notification_row
  get_notification id = public (get_notification_row id)
