-- ===== src/Start/Ready.antt =====
-- What the application finds when it starts to serve: app/main.py with app/db/db_init.py.
use va_enp_api.Prelude.{true, false, ◌≡◌, refl, subst, Option, some, arith, inl, inr}
use va_enp_api.Effects.{ok, Exec-cases}
use va_enp_api.Db.Sessions.{init_db}
use va_enp_api.Db.Laws.{IsStarted, init_db-IsStarted}
use va_enp_api.Start.Telemetry.{configure_telemetry}
use va_enp_api.Start.Lifespan.{RedisManager, App, Startup, start_up}

module _ {W Engine Session Tracer Meter : Type 0} (c : Startup W Engine Session Tracer Meter) where
  -- The manager after its client was made.
  abbrev pub manager_made : RedisManager
  manager_made = record { redis_url = c.redis_url; has_client = true }

  -- What the application serves with: Redis answered, the manager that made the client is in the
  -- state beside the providers that were there, and the database was started.
  pub record IsReady (s s' : App W Engine) : Type 0 where
    pub before_ping : W
    pub after_ping : W
    pub answered : c.ping before_ping ≡ (ok tt, after_ping)
    pub manager : s'.enp_state.redis_client_manager ≡ some manager_made
    pub providers : s'.enp_state.providers ≡ s.enp_state.providers
    pub database :
        let d = s.database in
        IsStarted c.sql c.addresses false (record d { outside = after_ping }) s'.database

  -- If the start returns, and so the application serves, Redis answered a ping, the application's
  -- state has the manager with its client and the providers that it had, and the engines of both
  -- addresses were made and are those that sessions are opened on.
  pub start_up-IsReady :
      (s s' : App W Engine) (otel_providers : Option (Tracer × Meter))
      → start_up c s ≡ (ok otel_providers, s')
      → IsReady s s'
  unfolding start_up
  start_up-IsReady s s' otel_providers h =
      let d = s.database in
      let a = s.enp_state in
      elim (Exec-cases (configure_telemetry c.otel c.otel_endpoint) s.database.outside) [
        | inr (x, w₁, e₁) ↦ absurd (ground arith)
        | inl (p, w₁, e₁) ↦ elim (Exec-cases (c.connect c.redis_url) w₁) [
          | inr (x, w₂, e₂) ↦ absurd (ground arith)
          | inl (_, w₂, e₂) ↦ elim (Exec-cases c.ping w₂) [
            | inr (x, w₃, e₃) ↦ absurd (ground arith)
            | inl (_, w₃, e₃) ↦
                elim (Exec-cases (init_db c.sql c.addresses false) (record d { outside = w₃ })) [
                  | inr (x, d', e₄) ↦ absurd (ground arith)
                  | inl (_, d', e₄) ↦
                      let same : record {
                        enp_state = record a { redis_client_manager = some manager_made };
                        database = d';
                      }
                          ≡ s' =
                        ground arith in
                      subst (IsReady s) same (record {
                        before_ping = w₂;
                        after_ping = w₃;
                        answered = e₃;
                        manager = refl;
                        providers = refl;
                        database =
                            init_db-IsStarted c.sql c.addresses false (record d { outside = w₃ }) d'
                              e₄;
                      })
                ]
          ]
        ]
      ]
