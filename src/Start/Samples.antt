-- ===== src/Start/Samples.antt =====
-- The libraries of a start in memory: what was done is written down in the log of the database's.
use va_enp_api.Prelude.{ℕ, String, none, some, ◌∷◌}
use va_enp_api.Effects.{ok, Exec}
use va_enp_api.Redis.Server.{Redis}
use va_enp_api.State.{new_enp_state}
use va_enp_api.Db.Sessions.{no_engines}
use va_enp_api.Db.Samples.{disposed, Log, sql, addresses, fresh_log}
use va_enp_api.Start.Telemetry.{Otel}
use va_enp_api.Start.Lifespan.{App, Startup}

abbrev done : {X : Type 0} → String → Exec Log X (Unit {0})
done name w = (ok tt, record w { events = disposed name ∷ w.events })

abbrev otel : Otel Log String String
otel = record {
  tracer_provider = λ endpoint service w. (ok "tracer", w);
  set_tracer_provider = λ t w. (ok tt, w);
  meter_provider = λ endpoint service w. (ok "meter", w);
  set_meter_provider = λ m w. (ok tt, w);
  shutdown_tracer = done;
  shutdown_meter = done;
}

abbrev redis : Redis Log
redis = record {
  set_nx = λ k v ex w. (ok tt, w);
  get = λ k w. (ok none, w);
  decrby = λ k w. (ok tt, w);
  aclose = done "client";
  disconnect = done "pool";
}

abbrev pub startup : Startup Log String ℕ String String
startup = record {
  otel = otel;
  sql = sql;
  redis = redis;
  connect = λ url w. (ok tt, w);
  ping = λ w. (ok tt, w);
  addresses = addresses;
  otel_endpoint = some "http://collector:4317";
  redis_url = "redis://0.0.0.0:6379";
}

abbrev pub new_app : String → App Log String
new_app stuck = record { enp_state = new_enp_state; database = no_engines (fresh_log stuck) }
