-- ===== src/Start/Telemetry.antt =====
-- `configure_telemetry` of app/telemetry.py. The OpenTelemetry SDK is a parameter.
use va_enp_api.Prelude.{String, Option, none, some, str_eq, if◌then◌else◌}
use va_enp_api.Effects.{BaseException, Exec, pure, ◌>>=◌}

-- What is used of the SDK. A provider is made with the resource that it detects and with the exporter
-- to an endpoint.
pub record Otel (W Tracer Meter : Type 0) : Type 0 where
  pub tracer_provider : (endpoint service_name : String) → Exec W BaseException Tracer
  pub set_tracer_provider : Tracer → Exec W BaseException (Unit {0})
  pub meter_provider : (endpoint service_name : String) → Exec W BaseException Meter
  pub set_meter_provider : Meter → Exec W BaseException (Unit {0})
  pub shutdown_tracer : Tracer → Exec W BaseException (Unit {0})
  pub shutdown_meter : Meter → Exec W BaseException (Unit {0})

module _ {W Tracer Meter : Type 0} (otel : Otel W Tracer Meter) where
  abbrev pub configure_with : String → String → Exec W BaseException (Option (Tracer × Meter))
  configure_with service_name endpoint = do
    tracer ← otel.tracer_provider endpoint service_name
    done ← otel.set_tracer_provider tracer
    meter ← otel.meter_provider endpoint service_name
    done ← otel.set_meter_provider meter
    pure (some (tracer, meter))

  -- `not endpoint`: the variable is missing or empty.
  abbrev pub configured : String → Option String → Exec W BaseException (Option (Tracer × Meter))
  configured service_name none = pure none
  configured service_name (some endpoint) =
      if str_eq endpoint "" then pure none else configure_with service_name endpoint

  unfoldable pub configure_telemetry :
      (endpoint : Option String) → Exec W BaseException (Option (Tracer × Meter))
  configure_telemetry = configured "va-enp-api"
