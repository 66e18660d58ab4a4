-- ===== src/Dao/Samples.antt =====
-- A database in memory, so that the hypotheses about one can hold: tables as lists, and a list of
-- the faults that the coming statements meet before they are executed.
use va_enp_api.Prelude.{String, Bool, List, [], ◌∷◌, ◌++◌, str_eq, if◌then◌else◌, ◌&&◌, not}
use va_enp_api.Effects.{Result, ok, err, Exec}
use va_enp_api.Dao.Rows.{
  DbFault, no_result_found, multiple_results_found, integrity_error, ServiceRow, ApiKeyRow,
  TemplateRow, SmsSenderRow, NotificationRow, RecipientIdentifier, Database,
}

pub record Tables : Type 0 where
  pub services : List ServiceRow
  pub api_keys : List ApiKeyRow
  pub templates : List TemplateRow
  pub sms_senders : List SmsSenderRow
  pub notifications : List NotificationRow
  pub recipients : List (String × RecipientIdentifier)
  pub faults : List DbFault

abbrev pub matching : {A : Type 0} → (A → Bool) → List A → List A
matching p [] = []
matching p (x ∷ xs) = let rest = matching p xs in if p x then x ∷ rest else rest

-- `.one()`
abbrev one : {A : Type 0} → List A → Result DbFault A
one [] = err no_result_found
one (x ∷ []) = ok x
one (x ∷ y ∷ xs) = err multiple_results_found

-- A statement that meets the next fault, or runs.
abbrev execute_with : {A : Type 0} → List DbFault → Exec Tables DbFault A → Exec Tables DbFault A
execute_with [] m t = m t
execute_with (f ∷ fs) m t = (err f, record t { faults = fs })

abbrev execute : {A : Type 0} → Exec Tables DbFault A → Exec Tables DbFault A
execute m t = execute_with t.faults m t

abbrev insert_new : NotificationRow → List NotificationRow → Exec Tables DbFault (Unit {0})
insert_new row [] t = (ok tt, record t { notifications = t.notifications ++ row ∷ [] })
insert_new row (_ ∷ _) t = (err (integrity_error "duplicate key value"), t)

abbrev keeps : String → NotificationRow → Bool
keeps id row = not (str_eq row.id id)

abbrev pub tables_db : Database Tables
tables_db = record {
  select_service = λ id. execute (λ t. (one (matching (λ r. str_eq r.id id) t.services), t));
  select_api_keys =
      λ id. execute (λ t. (ok (matching (λ r. str_eq r.service_id id) t.api_keys), t));
  select_template = λ id. execute (λ t. (one (matching (λ r. str_eq r.id id) t.templates), t));
  select_template_of_service = λ id service_id. execute (λ t.
      (one (matching (λ r. str_eq r.id id && str_eq r.service_id service_id) t.templates), t));
  select_sms_sender = λ id. execute (λ t. (one (matching (λ r. str_eq r.id id) t.sms_senders), t));
  select_default_sms_sender =
      λ id. execute (λ t. (one (matching (λ r. str_eq r.service_id id) t.sms_senders), t));
  select_notification =
      λ id. execute (λ t. (one (matching (λ r. str_eq r.id id) t.notifications), t));
  insert_notification =
      λ row. execute (λ t. insert_new row (matching (λ r. str_eq r.id row.id) t.notifications) t);
  delete_notification = λ id.
      execute
        (λ t. (ok tt, record t { notifications = matching (λ r. keeps id r) t.notifications }));
  insert_recipient_identifier = λ id recipient.
      execute (λ t. (ok tt, record t { recipients = t.recipients ++ (id, recipient) ∷ [] }));
}

abbrev pub no_tables : Tables
no_tables = record {
  services = [];
  api_keys = [];
  templates = [];
  sms_senders = [];
  notifications = [];
  recipients = [];
  faults = [];
}
