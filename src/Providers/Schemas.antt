-- ===== src/Providers/Schemas.antt =====
-- app/providers/provider_schemas.py.
use va_enp_api.Prelude.{String, not, ◌&&◌, ◌||◌, Option, if◌then◌else◌, is_some}
use va_enp_api.Constants.{MobileAppType}
use va_enp_api.Effects.{Exception, value_error, Result, ok, err}

pub record DeviceRegistrationModel : Type 0 where
  pub platform_application_name : MobileAppType
  pub token : String

pub record PushModel : Type 0 where
  pub message : String
  pub target_arn : Option String
  pub topic_arn : Option String

pub record PushRegistrationModel : Type 0 where
  pub platform_application_arn : String
  pub token : String

-- The validator that runs after the fields were read. Pydantic's exception is a `ValueError`.
unfoldable pub check_arn : PushModel → Result Exception PushModel
check_arn model =
    if not (is_some model.target_arn) && not (is_some model.topic_arn)
      || is_some model.target_arn && is_some model.topic_arn
    then err (value_error "One, and only one, of topic_arn or target_arn must not be None.")
    else ok model
