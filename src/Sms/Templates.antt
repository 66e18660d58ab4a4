-- ===== src/Sms/Templates.antt =====
-- `validate_template` of app/legacy/v2/notifications/utils.py.
use va_enp_api.Prelude.{
  String, Bool, not, Option, none, some, [], ◌∷◌, f_string, if◌then◌else◌, str_eq,
}
use va_enp_api.Constants.{NotificationType, notification_type_value}
use va_enp_api.Effects.{
  Exception, non_retryable_error, http_exception, Result, ok, err, Exec, raise, of_result, catch,
  ◌>>=◌,
}
use va_enp_api.Retry.{Tenacity}
use va_enp_api.Cache.{AlruCache}
use va_enp_api.Dao.Rows.{TemplateRow, Database}
use va_enp_api.Dao.Lookups.{get_by_id_and_service_id}

-- `_validate_template_type`
abbrev pub validate_template_type :
    NotificationType → NotificationType → Result Exception (Unit {0})
validate_template_type template_type expected_type =
    if not (str_eq (notification_type_value template_type) (notification_type_value expected_type))
    then err (
        non_retryable_error (
          some (
            f_string (
              notification_type_value template_type
              ∷ " template is not suitable for "
              ∷ notification_type_value expected_type
              ∷ " notification"
              ∷ []))))
    else ok tt

-- `_validate_template_active`
abbrev pub validate_template_active : Bool → Result Exception (Unit {0})
validate_template_active archived =
    if archived then err (non_retryable_error (some "Template has been deleted")) else ok tt

-- `str(e.log_msg)`
abbrev log_msg : Option String → String
log_msg none = "None"
log_msg (some message) = message

-- The two `except NonRetryableError`.
abbrev pub template_not_found : Exception → Exception
template_not_found (non_retryable_error _) = http_exception 400 "Template not found"
template_not_found x = x

abbrev pub unsuitable : Exception → Exception
unsuitable (non_retryable_error message) = http_exception 400 (log_msg message)
unsuitable x = x

abbrev pub check_row : NotificationType → TemplateRow → Result Exception TemplateRow
check_row expected_type template =
    elim (validate_template_type template.template_type expected_type) [
      | err x ↦ err (unsuitable x)
      | ok _ ↦ elim (validate_template_active template.archived) [
        | err x ↦ err (unsuitable x)
        | ok _ ↦ ok template
      ]
    ]

-- The arguments of `validate_template`, the key of its cache.
pub record TemplateKey : Type 0 where
  pub template_id : String
  pub service_id : String
  pub expected_type : NotificationType

module _ {W : Type 0} (tenacity : Tenacity W) (db : Database W)
    (rows : AlruCache W (String × String) TemplateRow) where
  -- The body of `validate_template`, and the cached function.
  unfoldable pub find_valid_template : TemplateKey → Exec W Exception TemplateRow
  find_valid_template key = do
    template ←
        catch (get_by_id_and_service_id tenacity db rows key.template_id key.service_id)
          (λ x. raise (template_not_found x))
    of_result (check_row key.expected_type template)

  unfoldable pub validate_template :
      AlruCache W TemplateKey TemplateRow
      → String
      → String
      → NotificationType
      → Exec W Exception TemplateRow
  unfolding find_valid_template
  validate_template templates template_id service_id expected_type =
      templates.call find_valid_template (record {
        template_id = template_id;
        service_id = service_id;
        expected_type = expected_type;
      })
