-- ===== src/Db/Laws.antt =====
-- What starting and closing the database and using a session of it come to: app/db/db_init.py.
use va_enp_api.Prelude.{String, Bool, ◌≡◌, refl, sym, subst, Option, some, arith, inl, inr}
use va_enp_api.Effects.{
  BaseException, Result, ok, err, Exec, of_result, ◌>>=◌, exit_with, Exec-cases,
}
use va_enp_api.Db.Sessions.{
  DbState, SqlAlchemy, Addresses, on_database, create_engines, init_napi_metadata, init_db,
  close_db, get_db_session, yield_session, get_read_session_with_depends,
  get_read_session_with_context, get_write_session_with_depends, get_write_session_with_context,
}

module _ {W Engine Session : Type 0} (db : SqlAlchemy W Engine Session) where
  -- The engines that were made, the one for reading first, and the tables were read through it.
  pub record IsStarted (addresses : Addresses) (pool_pre_ping : Bool) (s s' : DbState W Engine)
      : Type 0 where
    pub read : Engine
    pub write : Engine
    pub w₁ : W
    pub w₂ : W
    pub made_read :
        db.create_async_engine addresses.napi_db_read_uri pool_pre_ping s.outside ≡ (ok read, w₁)
    pub made_write :
        db.create_async_engine addresses.napi_db_write_uri pool_pre_ping w₁ ≡ (ok write, w₂)
    pub reflected : db.reflect read w₂ ≡ (ok tt, s'.outside)
    pub reads : get_db_session db s'.engine_napi_read "read" ≡ ok read
    pub writes : get_db_session db s'.engine_napi_write "write" ≡ ok write

  -- If `init_db` returns, then the engines of both addresses were made, the tables were read through
  -- the first, and from then on a session maker for reading is bound to the first engine and one for
  -- writing to the second.
  pub init_db-IsStarted :
      (addresses : Addresses) (pool_pre_ping : Bool) (s s' : DbState W Engine)
      → init_db db addresses pool_pre_ping s ≡ (ok tt, s')
      → IsStarted addresses pool_pre_ping s s'
  unfolding init_db create_engines init_napi_metadata
  init_db-IsStarted addresses pool_pre_ping s s' h =
      elim (Exec-cases (db.create_async_engine addresses.napi_db_read_uri pool_pre_ping)
        s.outside) [
          | inr (x, w₁, e) ↦ absurd (ground arith)
          | inl (read, w₁, e) ↦
              elim (Exec-cases (db.create_async_engine addresses.napi_db_write_uri pool_pre_ping)
                w₁) [
                  | inr (x, w₂, e') ↦ absurd (ground arith)
                  | inl (write, w₂, e') ↦ elim (Exec-cases (db.reflect read) w₂) [
                    | inr (x, w₃, e'') ↦ absurd (ground arith)
                    | inl (_, w₃, e'') ↦
                        let same : record {
                          engine_napi_read = some read;
                          engine_napi_write = some write;
                          outside = w₃;
                        }
                            ≡ s' =
                          ground arith in
                        subst (IsStarted addresses pool_pre_ping s) same (record {
                          read = read;
                          write = write;
                          w₁ = w₁;
                          w₂ = w₂;
                          made_read = e;
                          made_write = e';
                          reflected = e'';
                          reads = refl;
                          writes = refl;
                        })
                  ]
                ]
        ]

  -- What closing both engines comes to: one after the other, or the first only.
  pub data Disposes (read write : Engine) (s : DbState W Engine)
      : Result BaseException (Unit {0}) × DbState W Engine → Type 0 where
    both :
        {w₁ w₂ : W} {r : Result BaseException (Unit {0})}
        → db.dispose read s.outside ≡ (ok tt, w₁)
        → db.dispose write w₁ ≡ (r, w₂)
        → Disposes read write s (r, record s { outside = w₂ })
    first_only :
        {w₁ : W} {x : BaseException}
        → db.dispose read s.outside ≡ (err x, w₁)
        → Disposes read write s (err x, record s { outside = w₁ })

  -- `close_db` closes the engine for reading and then the one for writing; if the first cannot be
  -- closed, it ends in that exception and the engine for writing stays open.
  pub close_db-Disposes :
      (read write : Engine) (s : DbState W Engine)
      → s.engine_napi_read ≡ some read
      → s.engine_napi_write ≡ some write
      → Disposes read write s (close_db db s)
  unfolding close_db
  close_db-Disposes read write s r w = elim (Exec-cases (db.dispose read) s.outside) [
    | inr (x, w₁, e) ↦
        let stops : (err x, record s { outside = w₁ }) ≡ close_db db s = ground arith in
        subst (Disposes read write s) stops (first_only e)
    | inl (_, w₁, e) ↦ elim (Exec-cases (db.dispose write) w₁) [
      | inr (x, w₂, e') ↦
          let ends : (err x, record s { outside = w₂ }) ≡ close_db db s = ground arith in
          subst (Disposes read write s) ends (both e e')
      | inl (_, w₂, e') ↦
          let ends : (ok tt, record s { outside = w₂ }) ≡ close_db db s = ground arith in
          subst (Disposes read write s) ends (both e e')
    ]
  ]

  -- What becomes of the result of the code that used a session when the session was closed.
  abbrev pub closed_result :
      {A : Type 0}
      → Result BaseException (Unit {0})
      → Result BaseException A
      → Result BaseException A
  closed_result (ok _) r = r
  closed_result (err x) r = err x

  exit-closed_result :
      {A : Type 0} (exit : Exec W BaseException (Unit {0})) (r : Result BaseException A)
      (s : DbState W Engine)
      → exit_with (on_database db exit) (r, s)
        ≡ (closed_result (exit s.outside).0 r, record s { outside = (exit s.outside).1 })
  exit-closed_result exit r s = elim (Exec-cases exit s.outside) [
    | inl (_, w, e) ↦ ground arith
    | inr (x, w, e) ↦ ground arith
  ]

  -- A session of the engine was made, the body ran with it, and then it was closed, once.
  pub record IsClosed {A : Type 0} (engine : Engine)
      (body : Session → Exec (DbState W Engine) BaseException A) (s : DbState W Engine)
      (out : Result BaseException A × DbState W Engine) : Type 0 where
    pub session : Session
    pub w₁ : W
    pub s₂ : DbState W Engine
    pub w₃ : W
    pub r : Result BaseException A
    pub c : Result BaseException (Unit {0})
    pub opened : db.session engine s.outside ≡ (session, w₁)
    pub ran : body session (record s { outside = w₁ }) ≡ (r, s₂)
    pub closed : db.close session s₂.outside ≡ (c, w₃)
    pub comes_to : out ≡ (closed_result c r, record s₂ { outside = w₃ })

  yield_session-IsClosed :
      {A : Type 0} (engine : Engine) (body : Session → Exec (DbState W Engine) BaseException A)
      (s : DbState W Engine)
      → IsClosed engine body s (yield_session db body engine s)
  yield_session-IsClosed engine body s =
      let (session, w₁) = db.session engine s.outside in
      let (r, s₂) = body session (record s { outside = w₁ }) in
      let (c, w₃) = db.close session s₂.outside in
      record {
        session = session;
        w₁ = w₁;
        s₂ = s₂;
        w₃ = w₃;
        r = r;
        c = c;
        opened = refl;
        ran = refl;
        closed = refl;
        comes_to = exit-closed_result (db.close session) r s₂;
      }

  made_session-IsClosed :
      {A : Type 0} (engine : Engine) (body : Session → Exec (DbState W Engine) BaseException A)
      (s : DbState W Engine) (given : Option Engine) (engine_type : String)
      → given ≡ some engine
      → IsClosed engine body s
          ((of_result (get_db_session db given engine_type) >>= yield_session db body) s)
  made_session-IsClosed engine body s given engine_type e =
      subst
        (λ o.
          IsClosed engine body s
            ((of_result (get_db_session db o engine_type) >>= yield_session db body) s))
        (sym e) (yield_session-IsClosed engine body s)

  -- Each of the four generators makes one session, on the engine for reading or for writing, lets the
  -- code that asked for it run, and closes it once, whether that code returned, raised or was
  -- cancelled; its outcome stands unless closing fails.
  pub get_session-IsClosed :
      {A : Type 0} (read write : Engine) (body : Session → Exec (DbState W Engine) BaseException A)
      (s : DbState W Engine)
      → s.engine_napi_read ≡ some read
      → s.engine_napi_write ≡ some write
      → IsClosed read body s (get_read_session_with_depends db body s)
        × IsClosed read body s (get_read_session_with_context db body s)
        × IsClosed write body s (get_write_session_with_depends db body s)
        × IsClosed write body s (get_write_session_with_context db body s)
  unfolding get_read_session_with_depends get_read_session_with_context
      get_write_session_with_depends get_write_session_with_context
  get_session-IsClosed read write body s r w =
      let reads = made_session-IsClosed read body s s.engine_napi_read "read" r in
      let writes = made_session-IsClosed write body s s.engine_napi_write "write" w in
      (reads, reads, writes, writes)
