-- ===== src/Sms/Suitable.antt =====
-- Which templates `validate_template` of app/legacy/v2/notifications/utils.py accepts.
use va_enp_api.Prelude.{◌≡◌, refl, ◌∙◌, false, arith, inl, inr, Bool-cases}
use va_enp_api.Constants.{NotificationType, email, push, sms}
use va_enp_api.Effects.{ok, Result-cases, raise, catch, of_result, catch-raise-ok, >>=-eq-ok}
use va_enp_api.Dao.Rows.{TemplateRow}
use va_enp_api.Cache.{Obtained, call-Obtained}
use va_enp_api.Dao.Lookups.{find_template_of_service, get_by_id_and_service_id}
use va_enp_api.Sms.Handler.{SmsCollaborators}
use va_enp_api.Sms.Templates.{
  TemplateKey, find_valid_template, check_row, validate_template_type, template_not_found,
}

validate_template_type-ok :
    (t expected : NotificationType) → validate_template_type t expected ≡ ok tt → t ≡ expected
validate_template_type-ok email email h = refl
validate_template_type-ok push push h = refl
validate_template_type-ok sms sms h = refl
validate_template_type-ok email push h = absurd (ground arith)
validate_template_type-ok email sms h = absurd (ground arith)
validate_template_type-ok push email h = absurd (ground arith)
validate_template_type-ok push sms h = absurd (ground arith)
validate_template_type-ok sms email h = absurd (ground arith)
validate_template_type-ok sms push h = absurd (ground arith)

check_row-ok :
    (expected : NotificationType) (row template : TemplateRow)
    → check_row expected row ≡ ok template
    → (row ≡ template) × (row.template_type ≡ expected) × (row.archived ≡ false)
check_row-ok expected row template h =
    elim (Result-cases (validate_template_type row.template_type expected)) [
      | inr (x, e) ↦ absurd (ground arith)
      | inl (_, e) ↦ elim (Bool-cases row.archived) [
        | inl archived ↦ absurd (ground arith)
        | inr live ↦ (
          ground arith,
          validate_template_type-ok row.template_type expected (ground arith),
          live,
        )
      ]
    ]

module _ {W : Type 0} (c : SmsCollaborators W) where
  -- A template that the handler finds, when the cache of accepted templates does not hold it, came
  -- from the cache of the DAO or from the database, for the template and the service; it is of the
  -- expected type and is not archived.
  pub find_valid_template-ok :
      (key : TemplateKey) (w w' : W) (template : TemplateRow)
      → find_valid_template c.auth.tenacity c.auth.db c.template_rows key w ≡ (ok template, w')
      → (template.template_type ≡ key.expected_type)
        × (template.archived ≡ false)
        × Obtained c.template_rows
            (find_template_of_service c.auth.tenacity c.auth.db)
            (key.template_id, key.service_id)
            w
            template
            w'
  unfolding find_valid_template get_by_id_and_service_id
  find_valid_template-ok key w w' template h =
      let get =
        get_by_id_and_service_id c.auth.tenacity c.auth.db c.template_rows key.template_id
          key.service_id in
      let look = catch get (λ x. raise (template_not_found x)) in
      let (row, w₁, e, checked) =
        >>=-eq-ok look (λ t. of_result (check_row key.expected_type t)) w h in
      let (found, typed, live) = check_row-ok key.expected_type row template (ground arith) in
      let got : get w ≡ (ok template, w') =
        catch-raise-ok get template_not_found w (e ∙ ground arith) in
      (
        ground arith,
        ground arith,
        call-Obtained c.template_rows (find_template_of_service c.auth.tenacity c.auth.db)
            (key.template_id, key.service_id) w template w' got,
      )
