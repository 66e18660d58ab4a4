-- ===== src/Db/Samples.antt =====
-- A database library in memory: engines are named by their addresses, sessions by numbers, and what
-- was done is written down.
use va_enp_api.Prelude.{ℕ, suc, String, List, [], ◌∷◌, str_eq, if◌then◌else◌}
use va_enp_api.Effects.{BaseException, exception, other_error, ok, err, Exec}
use va_enp_api.Db.Sessions.{SqlAlchemy, Addresses}

pub data Event : Type 0 where
  made reflected disposed : String → Event
  opened closed : ℕ → Event

pub record Log : Type 0 where
  pub events : List Event
  pub sessions : ℕ
  pub stuck_engine : String

abbrev noted : Event → Exec Log BaseException (Unit {0})
noted e w = (ok tt, record w { events = e ∷ w.events })

abbrev make : String → Exec Log BaseException String
make uri w = (ok uri, record w { events = made uri ∷ w.events })

abbrev dispose_engine : String → Exec Log BaseException (Unit {0})
dispose_engine uri w =
    if str_eq uri w.stuck_engine
    then (err (exception (other_error "OSError")), w)
    else (ok tt, record w { events = disposed uri ∷ w.events })

abbrev pub sql : SqlAlchemy Log String ℕ
sql = record {
  create_async_engine = λ uri pool_pre_ping. make uri;
  reflect = λ uri. noted (reflected uri);
  dispose = dispose_engine;
  session = λ uri w.
      (w.sessions, record w { events = opened w.sessions ∷ w.events; sessions = suc w.sessions });
  close = λ n. noted (closed n);
}

abbrev pub addresses : Addresses
addresses = record { napi_db_read_uri = "read"; napi_db_write_uri = "write" }

abbrev pub fresh_log : String → Log
fresh_log stuck = record { events = []; sessions = 0; stuck_engine = stuck }
