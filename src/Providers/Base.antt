-- ===== src/Providers/Base.antt =====
-- `ProviderBase` of app/providers/provider_base.py: what a class of providers inherits from it, and
-- what `ProviderAWS` has of its own.
use va_enp_api.Prelude.{ℕ, String, ◌≡◌, refl, Option, some, [], ◌∷◌, f_string}
use va_enp_api.Effects.{Exception, not_implemented_error, err, Exec, pure, raise, ◌>>=◌}
use va_enp_api.Retry.{Tenacity, policy, log_last_attempt_on_failure}
use va_enp_api.Providers.Schemas.{PushModel}
use va_enp_api.Providers.Sns.{SnsClient, AwsSettings, send_push, send_notification}

-- The methods of a class that a class below it may replace.
pub record Methods (W : Type 0) : Type 0 where
  pub process_response : Exec W Exception (Unit {0})
  pub process_email_response : Exec W Exception (Unit {0})
  pub process_push_response : Exec W Exception (Unit {0})
  pub process_sms_response : Exec W Exception (Unit {0})
  pub send_email : Exec W Exception String
  pub send_push : PushModel → Exec W Exception String
  pub send_sms : Exec W Exception String

abbrev pub does_not_implement : String → Exception
does_not_implement class_name =
    not_implemented_error
      (f_string ("Derived class: " ∷ class_name ∷ " does not implement this method." ∷ []))

-- The methods of `ProviderBase`, called on an object of the named class.
abbrev pub provider_base : {W : Type 0} → String → Methods W
provider_base class_name =
    let x = does_not_implement class_name in
    record {
      process_response = raise x;
      process_email_response = raise x;
      process_push_response = raise x;
      process_sms_response = raise x;
      send_email = raise x;
      send_push = λ model. raise x;
      send_sms = raise x;
    }

module _ {W : Type 0} (tenacity : Tenacity W) where
  -- `send_notification`, which calls the class's own `_send_push`.
  unfoldable pub base_send_notification :
      ℕ → Methods W → PushModel → Exec W Exception (Option String)
  base_send_notification max_retries methods model =
      tenacity.run (Option String) (policy (some log_last_attempt_on_failure) max_retries)
        (methods.send_push model >>= λ reference. pure (some reference))

  -- A class that does not replace `_send_push` raises `NotImplementedError` for every notification,
  -- at the first attempt.
  pub base_send_notification_not_implemented :
      (class_name : String) (max_retries : ℕ) (model : PushModel) (w : W)
      → base_send_notification max_retries (provider_base class_name) model w
        ≡ (err (does_not_implement class_name), w)
  unfolding base_send_notification
  base_send_notification_not_implemented class_name max_retries model w =
      tenacity.raises_other (Option String) (policy (some log_last_attempt_on_failure) max_retries)
        _ w w (does_not_implement class_name) refl refl

  module _ (client : SnsClient W) (settings : AwsSettings) where
    abbrev pub provider_aws_methods : Methods W
    provider_aws_methods = record (provider_base "ProviderAWS") {
      send_push = send_push tenacity client settings;
    }

    -- `send_notification` of `ProviderAWS` is the inherited one.
    pub base_send_notification-aws :
        (model : PushModel)
        → base_send_notification settings.max_retries provider_aws_methods model
          ≡ send_notification tenacity client settings model
    unfolding base_send_notification send_notification
    base_send_notification-aws model = refl
