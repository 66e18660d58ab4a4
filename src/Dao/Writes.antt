-- ===== src/Dao/Writes.antt =====
-- The methods that write: `create_notification` and `delete_notification` of
-- app/legacy/dao/notifications_dao.py, and app/legacy/dao/recipient_identifiers_dao.py.
use text.Mathlib.Text.{find?}
use va_enp_api.Prelude.{String, Bool, Option, none, some, List, [], ◌∷◌, is_some, if◌then◌else◌}
use va_enp_api.Effects.{Exception, retryable_error, non_retryable_error, Exec}
use va_enp_api.Retry.{Tenacity, db_retry}
use va_enp_api.Dao.Rows.{
  DbFault, data_error, integrity_error, not_sqlalchemy, NotificationRow, RecipientIdentifier,
  Database, statement, public,
}
use va_enp_api.Dao.Lookups.{data_fault}

-- The personalisation of a request: its keys, and its values as JSON.
abbrev pub Personalisation : Type 0
Personalisation = List (String × String)

-- `serializer.serialize(personalisation) if personalisation else None`
abbrev pub serialized : (Personalisation → String) → Option Personalisation → Option String
serialized serialize none = none
serialized serialize (some []) = none
serialized serialize (some (entry ∷ entries)) = some (serialize (entry ∷ entries))

-- `'duplicate' in str(e).lower()`
abbrev pub mentions_duplicate : (String → String) → String → Bool
mentions_duplicate lower text = is_some (find? (lower text) "duplicate")

abbrev insert_fault : (String → String) → String → DbFault → Exception
insert_fault lower text fault =
    if mentions_duplicate lower text
    then retryable_error (some "Duplicate key")
    else data_fault "Notification insert failed: invalid or unexpected data."
        "Notification insert failed due to a transient database error."
        "Unexpected SQLAlchemy error during notification insert." fault

abbrev pub notification_insert_fault : (String → String) → DbFault → Exception
notification_insert_fault lower (data_error text) = insert_fault lower text (data_error text)
notification_insert_fault lower (integrity_error text) =
    insert_fault lower text (integrity_error text)
notification_insert_fault lower fault =
    data_fault "Notification insert failed: invalid or unexpected data."
      "Notification insert failed due to a transient database error."
      "Unexpected SQLAlchemy error during notification insert." fault

abbrev delete_fault : DbFault → Exception
delete_fault =
    data_fault "Notification delete failed: invalid or unexpected data."
      "Notification delete failed due to a transient database error."
      "Unexpected SQLAlchemy error during notification delete."

-- The last clause of this method takes every other exception too.
abbrev recipient_fault : DbFault → Exception
recipient_fault (not_sqlalchemy x) =
    non_retryable_error (some "Unexpected error during recipient identifiers insert.")
recipient_fault fault =
    data_fault "Recipient identifiers insert failed: invalid or unexpected data."
      "Recipient identifiers insert failed due to a transient database error."
      "Unexpected SQLAlchemy error during recipient identifiers insert." fault

-- `lower` is `str.lower`, over the Unicode data.
module _ {W : Type 0} (tenacity : Tenacity W) (db : Database W) (lower : String → String) where
  -- `LegacyNotificationDao._insert_notification` and `create_notification`, on the row that their
  -- arguments make.
  pub insert_notification : NotificationRow → Exec W Exception (Unit {0})
  insert_notification row =
      db_retry tenacity Unit
        (statement (db.insert_notification row) (notification_insert_fault lower))

  unfoldable pub create_notification : NotificationRow → Exec W Exception (Unit {0})
  unfolding insert_notification
  create_notification row = public (insert_notification row)

module _ {W : Type 0} (tenacity : Tenacity W) (db : Database W) where
  -- `LegacyNotificationDao._delete` and `delete_notification`
  pub delete_notification_row : String → Exec W Exception (Unit {0})
  delete_notification_row id =
      db_retry tenacity Unit (statement (db.delete_notification id) delete_fault)

  unfoldable pub delete_notification : String → Exec W Exception (Unit {0})
  unfolding delete_notification_row
  delete_notification id = public (delete_notification_row id)

  -- `RecipientIdentifiersDao._set_recipient_identifiers` and `set_recipient_identifiers`
  pub set_recipient_identifiers_row : String → RecipientIdentifier → Exec W Exception (Unit {0})
  set_recipient_identifiers_row notification_id recipient =
      db_retry tenacity Unit
        (statement (db.insert_recipient_identifier notification_id recipient) recipient_fault)

  unfoldable pub set_recipient_identifiers :
      String → RecipientIdentifier → Exec W Exception (Unit {0})
  unfolding set_recipient_identifiers_row
  set_recipient_identifiers notification_id recipient =
      public (set_recipient_identifiers_row notification_id recipient)
