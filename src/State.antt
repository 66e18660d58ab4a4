-- ===== src/State.antt =====
-- app/state.py: the state of the application.
use va_enp_api.Prelude.{String, Option, none, List, [], ◌∷◌}

-- The classes of providers; `ProviderAWS` is the one that there is.
pub data Provider : Type 0 where
  provider_aws : Provider

pub record EnpState (Manager : Type 0) : Type 0 where
  pub providers : List (String × Provider)
  pub redis_client_manager : Option Manager

-- `ENPState()`
abbrev pub new_enp_state : {Manager : Type 0} → EnpState Manager
new_enp_state = record { providers = ("aws", provider_aws) ∷ []; redis_client_manager = none }

abbrev pub clear_providers : {Manager : Type 0} → EnpState Manager → EnpState Manager
clear_providers state = record state { providers = [] }
