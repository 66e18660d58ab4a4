-- ===== src/Start/Lifespan.antt =====
-- `lifespan` and `safe_cleanup` of app/main.py.
use va_enp_api.Prelude.{String, Bool, true, false, Option, none, some, List, [], ◌∷◌}
use va_enp_api.Effects.{
  BaseException, exception, cancelled_error, exit_error, Result, ok, err, Exec, pure, raise, catch,
  ◌>>=◌, ◌>>◌, within_base, exit_with,
}
use va_enp_api.Redis.Server.{Redis}
use va_enp_api.Redis.Client.{close}
use va_enp_api.State.{EnpState, clear_providers}
use va_enp_api.Db.Sessions.{DbState, SqlAlchemy, Addresses, init_db, close_db}
use va_enp_api.Start.Telemetry.{Otel, configure_telemetry}

-- `RedisClientManager`: its address, and whether `get_client` has made the client.
pub record RedisManager : Type 0 where
  pub redis_url : String
  pub has_client : Bool

-- The application: its own state, and the globals of the database with everything outside.
pub record App (W Engine : Type 0) : Type 0 where
  pub enp_state : EnpState RedisManager
  pub database : DbState W Engine

-- What the start uses of the libraries and of the environment. `connect` makes the pool of
-- connections to Redis.
pub record Startup (W Engine Session Tracer Meter : Type 0) : Type 0 where
  pub otel : Otel W Tracer Meter
  pub sql : SqlAlchemy W Engine Session
  pub redis : Redis W
  pub connect : (redis_url : String) → Exec W BaseException (Unit {0})
  pub ping : Exec W BaseException (Unit {0})
  pub addresses : Addresses
  pub otel_endpoint : Option String
  pub redis_url : String

-- `except CancelledError`, which logs only.
abbrev pub uncancelled : Result BaseException (Unit {0}) → Result BaseException (Unit {0})
uncancelled (err (cancelled_error k)) = ok tt
uncancelled (err (exception x)) = err (exception x)
uncancelled (err (exit_error e)) = err (exit_error e)
uncancelled (ok _) = ok tt

module _ {W Engine : Type 0} where
  abbrev pub on_database :
      {A : Type 0} → Exec (DbState W Engine) BaseException A → Exec (App W Engine) BaseException A
  on_database m s = let (r, database) = m s.database in (r, record s { database = database })

  abbrev pub on_world : {A : Type 0} → Exec W BaseException A → Exec (App W Engine) BaseException A
  on_world m s =
      let d = s.database in
      let (r, w) = m d.outside in (r, record s { database = record d { outside = w } })

  abbrev pub set_manager : RedisManager → Exec (App W Engine) BaseException (Unit {0})
  set_manager manager s =
      let state = s.enp_state in
      (ok tt, record s { enp_state = record state { redis_client_manager = some manager } })

  abbrev pub clear : Exec (App W Engine) BaseException (Unit {0})
  clear s = (ok tt, record s { enp_state = clear_providers s.enp_state })

  -- `except Exception`, which logs only.
  abbrev pub logged_only : BaseException → Exec (App W Engine) BaseException (Unit {0})
  logged_only (exception x) = pure tt
  logged_only (cancelled_error k) = raise (cancelled_error k)
  logged_only (exit_error e) = raise (exit_error e)

  unfoldable pub safe_cleanup :
      Exec (App W Engine) BaseException (Unit {0}) → Exec (App W Engine) BaseException (Unit {0})
  safe_cleanup cleanup_func = catch cleanup_func logged_only

  -- The calls of `safe_cleanup`, one after the other.
  abbrev pub clean_up :
      List (Exec (App W Engine) BaseException (Unit {0}))
      → Exec (App W Engine) BaseException (Unit {0})
  clean_up [] = pure tt
  clean_up (cleanup_func ∷ others) = safe_cleanup cleanup_func >> clean_up others

module _ {W Engine Session Tracer Meter : Type 0} (c : Startup W Engine Session Tracer Meter) where
  -- What comes before the `try`: the providers of the telemetry, if any.
  unfoldable pub start_up : Exec (App W Engine) BaseException (Option (Tracer × Meter))
  unfolding configure_telemetry init_db
  start_up = do
    otel_providers ← on_world (configure_telemetry c.otel c.otel_endpoint)
    made ← on_world (c.connect c.redis_url)
    done ← set_manager (record { redis_url = c.redis_url; has_client = false })
    -- `get_client`
    done ← set_manager (record { redis_url = c.redis_url; has_client = true })
    pong ← on_world c.ping
    started ← on_database (init_db c.sql c.addresses false)
    pure otel_providers

  abbrev pub otel_cleanups :
      Option (Tracer × Meter) → List (Exec (App W Engine) BaseException (Unit {0}))
  otel_cleanups none = []
  otel_cleanups (some (tracer_provider, meter_provider)) =
      on_world (c.otel.shutdown_tracer tracer_provider)
      ∷ on_world (c.otel.shutdown_meter meter_provider)
      ∷ []

  -- What the `finally` clause cleans up. The manager has made its client by then.
  abbrev pub cleanups :
      Option (Tracer × Meter) → List (Exec (App W Engine) BaseException (Unit {0}))
  cleanups otel_providers =
      clear
      ∷ on_database (close_db c.sql)
      ∷ on_world (within_base (close c.redis true))
      ∷ otel_cleanups otel_providers

  -- `yield` lets the application run; then its outcome, without a cancellation, stands unless the
  -- cleaning ends in an exception.
  abbrev pub run_and_clean :
      Exec (App W Engine) BaseException (Unit {0})
      → Option (Tracer × Meter)
      → Exec (App W Engine) BaseException (Unit {0})
  run_and_clean serve otel_providers s =
      let (r, s') = serve s in exit_with (clean_up (cleanups otel_providers)) (uncancelled r, s')

  unfoldable pub lifespan :
      (serve : Exec (App W Engine) BaseException (Unit {0}))
      → Exec (App W Engine) BaseException (Unit {0})
  unfolding start_up
  lifespan serve = start_up >>= run_and_clean serve
