-- ===== src/Start/Tests.antt =====
-- A run of the application that is cancelled, with an engine that cannot be closed.
use va_enp_api.Prelude.{String, ◌≡◌, refl, true, false, some, [], ◌∷◌}
use va_enp_api.Effects.{BaseException, cancelled_error, ok, err, Exec, raise}
use va_enp_api.Redis.Client.{close}
use va_enp_api.Db.Sessions.{create_engines, init_napi_metadata, init_db, close_db}
use va_enp_api.Db.Samples.{made, reflected, disposed, Log}
use va_enp_api.State.{provider_aws}
use va_enp_api.Start.Telemetry.{configure_telemetry}
use va_enp_api.Start.Lifespan.{App, start_up, cleanups, lifespan}
use va_enp_api.Start.Release.{run_all, lifespan-run_all}
use va_enp_api.Start.Ready.{IsReady, start_up-IsReady}
use va_enp_api.Start.Samples.{startup, new_app}

abbrev serving : String → App Log String
serving stuck = record {
  enp_state = record {
    providers = ("aws", provider_aws) ∷ [];
    redis_client_manager = some (record { redis_url = "redis://0.0.0.0:6379"; has_client = true });
  };
  database = record {
    engine_napi_read = some "read";
    engine_napi_write = some "write";
    outside = record {
      events = reflected "read" ∷ made "write" ∷ made "read" ∷ [];
      sessions = 0;
      stuck_engine = stuck;
    };
  };
}

started_up : start_up startup (new_app "read") ≡ (ok (some ("tracer", "meter")), serving "read")
unfolding start_up configure_telemetry init_db create_engines init_napi_metadata
started_up = refl

abbrev cancelled : Exec (App Log String) BaseException (Unit {0})
cancelled = raise (cancelled_error false)

everything_released :
    (run_all (cleanups startup (some ("tracer", "meter"))) (serving "read")).database.outside.events
    ≡ disposed "meter"
      ∷ disposed "tracer"
      ∷ disposed "pool"
      ∷ disposed "client"
      ∷ reflected "read"
      ∷ made "write"
      ∷ made "read"
      ∷ []
unfolding close_db close
everything_released = refl

lifespan-run_all_example :
    (lifespan startup cancelled (new_app "read")
      ≡ (ok tt, run_all (cleanups startup (some ("tracer", "meter"))) (serving "read")))
    × ((run_all (cleanups startup (some ("tracer", "meter"))) (serving "read")).enp_state.providers
        ≡ [])
unfolding close_db close
lifespan-run_all_example =
    lifespan-run_all startup cancelled (some ("tracer", "meter")) (new_app "read") (serving "read")
      (serving "read") (err (cancelled_error false)) started_up refl
      (refl, (refl, (refl, (refl, (refl, tt)))))

start_up-IsReady_example : IsReady startup (new_app "read") (serving "read")
start_up-IsReady_example =
    start_up-IsReady startup (new_app "read") (serving "read") (some ("tracer", "meter")) started_up
