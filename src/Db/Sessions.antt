-- ===== src/Db/Sessions.antt =====
-- app/db/db_init.py. The database library is a parameter; the module's globals are a state.
use va_enp_api.Prelude.{String, Bool, Option, none, some, [], ◌∷◌, f_string}
use va_enp_api.Effects.{
  BaseException, exception, value_error, attribute_error, Result, ok, err, Exec, pure, raise,
  of_result, ◌>>=◌, ◌>>◌, exit_with,
}

-- `_engine_napi_read` and `_engine_napi_write`, and everything outside.
pub record DbState (W Engine : Type 0) : Type 0 where
  pub engine_napi_read : Option Engine
  pub engine_napi_write : Option Engine
  pub outside : W

-- When the module is loaded.
abbrev pub no_engines : {W Engine : Type 0} → W → DbState W Engine
no_engines w = record { engine_napi_read = none; engine_napi_write = none; outside = w }

-- What is used of SQLAlchemy. `reflect` connects and reads the tables into the metadata, `session`
-- makes a scoped session on an engine.
pub record SqlAlchemy (W Engine Session : Type 0) : Type 0 where
  pub create_async_engine : (uri : String) (pool_pre_ping : Bool) → Exec W BaseException Engine
  pub reflect : Engine → Exec W BaseException (Unit {0})
  pub dispose : Engine → Exec W BaseException (Unit {0})
  pub session : Engine → W → Session × W
  pub close : Session → Exec W BaseException (Unit {0})

pub record Addresses : Type 0 where
  pub napi_db_read_uri : String
  pub napi_db_write_uri : String

module _ {W Engine Session : Type 0} (db : SqlAlchemy W Engine Session) where
  -- An action on the outside.
  abbrev pub on_database :
      {A : Type 0} → Exec W BaseException A → Exec (DbState W Engine) BaseException A
  on_database m s = let (r, w) = m s.outside in (r, record s { outside = w })

  abbrev pub set_read : Engine → Exec (DbState W Engine) BaseException (Unit {0})
  set_read engine s = (ok tt, record s { engine_napi_read = some engine })

  abbrev pub set_write : Engine → Exec (DbState W Engine) BaseException (Unit {0})
  set_write engine s = (ok tt, record s { engine_napi_write = some engine })

  unfoldable pub create_engines :
      Addresses → Bool → Exec (DbState W Engine) BaseException (Unit {0})
  create_engines addresses pool_pre_ping = do
    read ← on_database (db.create_async_engine addresses.napi_db_read_uri pool_pre_ping)
    done ← set_read read
    write ← on_database (db.create_async_engine addresses.napi_db_write_uri pool_pre_ping)
    set_write write

  -- `None.connect()` is an `AttributeError`.
  abbrev pub reflect_with : Option Engine → Exec (DbState W Engine) BaseException (Unit {0})
  reflect_with none = raise (exception attribute_error)
  reflect_with (some engine) = on_database (db.reflect engine)

  unfoldable pub init_napi_metadata : Exec (DbState W Engine) BaseException (Unit {0})
  init_napi_metadata s = reflect_with s.engine_napi_read s

  unfoldable pub init_db : Addresses → Bool → Exec (DbState W Engine) BaseException (Unit {0})
  unfolding create_engines init_napi_metadata
  init_db addresses pool_pre_ping = create_engines addresses pool_pre_ping >> init_napi_metadata

  abbrev pub dispose_of : Option Engine → Exec (DbState W Engine) BaseException (Unit {0})
  dispose_of none = pure tt
  dispose_of (some engine) = on_database (db.dispose engine)

  unfoldable pub close_db : Exec (DbState W Engine) BaseException (Unit {0})
  close_db = (λ s. dispose_of s.engine_napi_read s) >> (λ s. dispose_of s.engine_napi_write s)

  -- A session maker is the engine that it is bound to.
  abbrev pub get_db_session : Option Engine → String → Result BaseException Engine
  get_db_session none engine_type = err (
      exception (
        value_error (
          f_string (
            "The db " ∷ engine_type ∷ " engine has not been initialized. None type received."
            ∷ []))))
  get_db_session (some engine) engine_type = ok engine

  -- The session is made, the code that uses it runs, and the session is closed whatever happened.
  abbrev pub yield_session :
      {A : Type 0}
      → (Session → Exec (DbState W Engine) BaseException A)
      → Engine
      → Exec (DbState W Engine) BaseException A
  yield_session body engine s =
      let (session, w) = db.session engine s.outside in
      exit_with (on_database (db.close session)) (body session (record s { outside = w }))

  unfoldable pub get_read_session_with_depends :
      {A : Type 0}
      → (Session → Exec (DbState W Engine) BaseException A)
      → Exec (DbState W Engine) BaseException A
  get_read_session_with_depends body s =
      (of_result (get_db_session s.engine_napi_read "read") >>= yield_session body) s

  unfoldable pub get_read_session_with_context :
      {A : Type 0}
      → (Session → Exec (DbState W Engine) BaseException A)
      → Exec (DbState W Engine) BaseException A
  get_read_session_with_context body s =
      (of_result (get_db_session s.engine_napi_read "read") >>= yield_session body) s

  unfoldable pub get_write_session_with_depends :
      {A : Type 0}
      → (Session → Exec (DbState W Engine) BaseException A)
      → Exec (DbState W Engine) BaseException A
  get_write_session_with_depends body s =
      (of_result (get_db_session s.engine_napi_write "write") >>= yield_session body) s

  unfoldable pub get_write_session_with_context :
      {A : Type 0}
      → (Session → Exec (DbState W Engine) BaseException A)
      → Exec (DbState W Engine) BaseException A
  get_write_session_with_context body s =
      (of_result (get_db_session s.engine_napi_write "write") >>= yield_session body) s
