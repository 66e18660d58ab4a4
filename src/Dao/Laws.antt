-- ===== src/Dao/Laws.antt =====
-- What the methods of app/legacy/dao come to when statements succeed and fail.
use va_enp_api.Prelude.{
  String, ◌≡◌, ◌↔◌, refl, sym, ap, ◌∙◌, subst, Bool, true, false, none, arith, inl, inr, Bool-cases,
}
use va_enp_api.Effects.{
  Exception, retryable_error, non_retryable_error, Result, ok, err, Exec, Exec-cases,
}
use va_enp_api.Retry.{Tenacity}
use va_enp_api.Cache.{AlruCache, call-err}
use va_enp_api.Dao.Rows.{
  DbFault, data_error, integrity_error, not_sqlalchemy, ServiceRow, TemplateRow, Database,
  RecipientIdentifier, NotificationRow, as_non_retryable, public,
}
use va_enp_api.Dao.Lookups.{
  get_notification_row, get_service_default_row, get_sms_sender_row, get_template_row_of_service,
  find_template_of_service, get_template_row, get_api_keys_for_service, get_service_row, row_fault,
  service_fault, get_service, get_service_api_keys, get_template, get_by_id_and_service_id,
  get_sms_sender, get_service_default, get_notification,
}
use va_enp_api.Dao.Writes.{
  set_recipient_identifiers_row, delete_notification_row, insert_notification, mentions_duplicate,
  notification_insert_fault, create_notification, delete_notification, set_recipient_identifiers,
}
use va_enp_api.Dao.Once.{public-ok, public-err, public-ok_iff}

-- What a public method may raise: not `RetryableError`, and `NonRetryableError` without a message.
abbrev pub IsContainedError : Exception → Type 0
IsContainedError (retryable_error _) = ⊥
IsContainedError (non_retryable_error message) = message ≡ none
IsContainedError _ = Unit

abbrev pub IsContained : {A : Type 0} → Result Exception A → Type 0
IsContained (ok _) = Unit
IsContained (err x) = IsContainedError x

IsContained-as_non_retryable : (x : Exception) → IsContainedError (as_non_retryable x)
IsContained-as_non_retryable (retryable_error _) = refl
IsContained-as_non_retryable (non_retryable_error _) = refl
IsContained-as_non_retryable _ = tt

-- `public` on the outcome of the method that it calls.
abbrev public_of : {W A : Type 0} → Result Exception A × W → Result Exception A × W
public_of (ok a, w) = (ok a, w)
public_of (err x, w) = (err (as_non_retryable x), w)

public_of-IsContained :
    {W A : Type 0} (out : Result Exception A × W) → IsContained (public_of out).0
public_of-IsContained (ok a, w) = tt
public_of-IsContained (err x, w) = IsContained-as_non_retryable x

public-eq-public_of : {W A : Type 0} (m : Exec W Exception A) (w : W) → public m w ≡ public_of (m w)
public-eq-public_of m w = elim (Exec-cases m w) [
  | inl (a, w', e) ↦ ground arith
  | inr (x, w', e) ↦ ground arith
]

public-IsContained : {W A : Type 0} (m : Exec W Exception A) (w : W) → IsContained (public m w).0
public-IsContained m w =
    subst (λ o. IsContained o.0) (sym (public-eq-public_of m w)) (public_of-IsContained (m w))

abbrev pub is_sqlalchemy : DbFault → Bool
is_sqlalchemy (not_sqlalchemy _) = false
is_sqlalchemy _ = true

transient-as_non_retryable :
    (invalid busy unexpected : String) (f : DbFault)
    → is_sqlalchemy f ≡ true
    → as_non_retryable (row_fault invalid busy unexpected f) ≡ non_retryable_error none
transient-as_non_retryable invalid busy unexpected f h = ground arith

insert-as_non_retryable :
    (lower : String → String) (f : DbFault)
    → is_sqlalchemy f ≡ true
    → as_non_retryable (notification_insert_fault lower f) ≡ non_retryable_error none
insert-as_non_retryable lower (data_error text) h =
    elim (Bool-cases (mentions_duplicate lower text)) [ inl e ↦ rw e refl | inr e ↦ rw e refl ]
insert-as_non_retryable lower (integrity_error text) h =
    elim (Bool-cases (mentions_duplicate lower text)) [ inl e ↦ rw e refl | inr e ↦ rw e refl ]
insert-as_non_retryable lower (not_sqlalchemy x) h = absurd (ground arith)
insert-as_non_retryable lower _ h = ground arith

module _ {W : Type 0} (t : Tenacity W) (db : Database W) where
  -- A service row that a lookup returns was returned by the one execution of its statement, and the
  -- world is the one which that execution left.
  pub get_service-ok :
      (id : String) (w w' : W) (row : ServiceRow)
      → get_service t db id w ≡ (ok row, w')
      → db.select_service id w ≡ (ok row, w')
  unfolding get_service
  get_service-ok id w w' row h = public-ok t (db.select_service id) service_fault w h

  -- A lookup of a service whose statement ends in a fault of SQLAlchemy, a transient one too, raises
  -- `NonRetryableError` without a message, and executes nothing more.
  pub get_service_failed :
      (id : String) (w w' : W) (f : DbFault)
      → is_sqlalchemy f ≡ true
      → db.select_service id w ≡ (err f, w')
      → get_service t db id w ≡ (err (non_retryable_error none), w')
  unfolding get_service
  get_service_failed id w w' f known e =
      let raised = public-err t (db.select_service id) service_fault w w' f e in
      let translated =
        transient-as_non_retryable "Service lookup failed: invalid or unexpected data."
          "Service lookup failed due to a transient database error."
          "Unexpected SQLAlchemy error during service lookup." f known in
      raised ∙ ap (λ x. (err x, w')) translated

call-IsContained :
    {W K V : Type 0} (c : AlruCache W K V) (f : K → Exec W Exception V) (k : K) (w : W)
    → ((w₁ : W) → IsContained (f k w₁).0)
    → IsContained (c.call f k w).0
call-IsContained c f k w all = elim (Exec-cases (c.call f k) w) [
  | inl (v, w', e) ↦ subst (λ o. IsContained o.0) (sym e) tt
  | inr (x, w', e) ↦
      let (miss, raised) = call-err c f k w x w' e in
      subst (λ o. IsContained o.0) (raised ∙ sym e) (all w)
]

module _ {W : Type 0} (t : Tenacity W) (db : Database W) (lower : String → String) where
  -- If the insert of a notification ends in any fault of SQLAlchemy, a transient one or a duplicate
  -- key too, then the creation raises `NonRetryableError` without a message; the insert is executed
  -- once.
  pub create_notification_failed :
      (row : NotificationRow) (w w' : W) (f : DbFault)
      → is_sqlalchemy f ≡ true
      → db.insert_notification row w ≡ (err f, w')
      → create_notification t db lower row w ≡ (err (non_retryable_error none), w')
  unfolding create_notification
  create_notification_failed row w w' f known e =
      public-err t (db.insert_notification row) (notification_insert_fault lower) w w' f e
      ∙ ap (λ x. (err x, w')) (insert-as_non_retryable lower f known)

  -- A creation returns if and only if its one insert of the notification does.
  pub create_notification-ok_iff :
      (row : NotificationRow) (w w' : W)
      → (create_notification t db lower row w ≡ (ok tt, w'))
        ↔ (db.insert_notification row w ≡ (ok tt, w'))
  unfolding create_notification
  create_notification-ok_iff row w w' =
      public-ok_iff t (db.insert_notification row) (notification_insert_fault lower) w w' tt

  -- No public method of the DAOs lets a `RetryableError` out, and every `NonRetryableError` that
  -- one raises has no message, whatever the database does.
  pub dao-IsContained :
      (rows : AlruCache W (String × String) TemplateRow) (id service_id : String)
      (row : NotificationRow) (recipient : RecipientIdentifier) (w : W)
      → IsContained (get_service t db id w).0
        × IsContained (get_service_api_keys t db service_id w).0
        × IsContained (get_template t db id w).0
        × IsContained (get_by_id_and_service_id t db rows id service_id w).0
        × IsContained (get_sms_sender t db id w).0
        × IsContained (get_service_default t db service_id w).0
        × IsContained (get_notification t db id w).0
        × IsContained (create_notification t db lower row w).0
        × IsContained (delete_notification t db id w).0
        × IsContained (set_recipient_identifiers t db id recipient w).0
  unfolding get_service get_service_api_keys get_template get_by_id_and_service_id
      find_template_of_service get_sms_sender get_service_default get_notification
      create_notification delete_notification set_recipient_identifiers
  dao-IsContained rows id service_id row recipient w = (
    public-IsContained (get_service_row t db id) w,
    public-IsContained (get_api_keys_for_service t db service_id) w,
    public-IsContained (get_template_row t db id) w,
    call-IsContained rows (find_template_of_service t db) (id, service_id) w
        (public-IsContained (get_template_row_of_service t db id service_id)),
    public-IsContained (get_sms_sender_row t db id) w,
    public-IsContained (get_service_default_row t db service_id) w,
    public-IsContained (get_notification_row t db id) w,
    public-IsContained (insert_notification t db lower row) w,
    public-IsContained (delete_notification_row t db id) w,
    public-IsContained (set_recipient_identifiers_row t db id recipient) w,
  )
