-- ===== src/Dao/Rows.antt =====
-- The legacy database as app/legacy/dao sees it: the rows that the code reads or writes, the
-- exceptions of the driver, and the statements that the DAOs execute, each with its session and
-- commit. The database itself is a parameter.
use va_enp_api.Prelude.{ℕ, String, Bool, Option, none, List}
use va_enp_api.Prelude.Int.{ℤ}
use va_enp_api.Constants.{NotificationType, IdentifierType}
use va_enp_api.Effects.{Exception, retryable_error, non_retryable_error, Exec, raise, catch}

-- What executing a statement may raise, by the classes that the DAOs tell apart: those of
-- SQLAlchemy, and any other exception (as the `ValueError` of a session with no engine).
pub data DbFault : Type 0 where
  no_result_found multiple_results_found : DbFault
  data_error integrity_error : String → DbFault
  operational_error interface_error timeout_error : DbFault
  sqlalchemy_error : DbFault
  not_sqlalchemy : Exception → DbFault

pub record ServiceRow : Type 0 where
  pub id : String
  pub name : String
  pub active : Bool

-- A `datetime`: its reading, and the offset of its zone if it is aware.
pub record DateTime : Type 0 where
  pub reading : ℤ
  pub tzinfo : Option ℤ

pub record ApiKeyRow : Type 0 where
  pub id : String
  pub secret : String
  pub service_id : String
  pub expiry_date : Option DateTime
  pub revoked : Bool
  pub key_type : String

pub record TemplateRow : Type 0 where
  pub id : String
  pub service_id : String
  pub template_type : NotificationType
  pub archived : Bool
  pub version : ℕ
  pub content : String
  pub reply_to_text : Option String

pub record SmsSenderRow : Type 0 where
  pub id : String
  pub service_id : String
  pub sms_sender : String

pub record NotificationRow : Type 0 where
  pub id : String
  pub notification_type : NotificationType
  pub to : Option String
  pub reply_to_text : String
  pub service_id : String
  pub api_key_id : String
  pub reference : Option String
  pub template_id : String
  pub template_version : ℕ
  pub billable_units : ℕ
  pub key_type : String
  pub notification_status : String
  pub personalisation : Option String

pub record RecipientIdentifier : Type 0 where
  pub id_type : IdentifierType
  pub id_value : String

-- The statements of the DAOs. A `select_` ends in `.one()`, but for the keys (`.fetchall()`).
pub record Database (W : Type 0) : Type 0 where
  pub select_service : String → Exec W DbFault ServiceRow
  pub select_api_keys : String → Exec W DbFault (List ApiKeyRow)
  pub select_template : String → Exec W DbFault TemplateRow
  pub select_template_of_service : String → String → Exec W DbFault TemplateRow
  pub select_sms_sender : String → Exec W DbFault SmsSenderRow
  pub select_default_sms_sender : String → Exec W DbFault SmsSenderRow
  pub select_notification : String → Exec W DbFault NotificationRow
  pub insert_notification : NotificationRow → Exec W DbFault (Unit {0})
  pub delete_notification : String → Exec W DbFault (Unit {0})
  pub insert_recipient_identifier : String → RecipientIdentifier → Exec W DbFault (Unit {0})

-- The body of a method under `db_retry`: one statement, whose exceptions `on_fault` translates.
abbrev pub statement :
    {W A : Type 0} → Exec W DbFault A → (DbFault → Exception) → Exec W Exception A
statement run on_fault = catch run (λ f. raise (on_fault f))

-- `except (RetryableError, NonRetryableError) as e: raise NonRetryableError from e`
abbrev pub as_non_retryable : Exception → Exception
as_non_retryable (retryable_error _) = non_retryable_error none
as_non_retryable (non_retryable_error _) = non_retryable_error none
as_non_retryable x = x

-- The public methods call one under `db_retry` in that `try`.
abbrev pub public : {W A : Type 0} → Exec W Exception A → Exec W Exception A
public m = catch m (λ x. raise (as_non_retryable x))
