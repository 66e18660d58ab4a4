-- ===== src/Start/Release.antt =====
-- That the application gives back what it holds when it ends: the `finally` clause of `lifespan` in
-- app/main.py.
use va_enp_api.Prelude.{
  Bool, true, false, ◌≡◌, refl, Option, none, some, List, [], ◌∷◌, arith, inl, inr,
}
use va_enp_api.Effects.{
  BaseException, exception, cancelled_error, exit_error, Result, ok, err, Exec, Exec-cases,
}
use va_enp_api.Start.Lifespan.{
  App, Startup, uncancelled, safe_cleanup, clean_up, start_up, cleanups, lifespan,
}

-- Whether nothing but an `Exception` was raised.
abbrev pub is_contained : {A : Type 0} → Result BaseException A → Bool
is_contained (ok _) = true
is_contained (err (exception x)) = true
is_contained (err (cancelled_error k)) = false
is_contained (err (exit_error e)) = false

module _ {W Engine : Type 0} where
  -- The state after each of the actions was run, in order, on the state that the one before it left.
  abbrev pub run_all :
      List (Exec (App W Engine) BaseException (Unit {0})) → App W Engine → App W Engine
  run_all [] s = s
  run_all (m ∷ ms) s = run_all ms (m s).1

  -- Run in that way, no action ends in anything but a return or an `Exception`.
  abbrev pub AllContained :
      List (Exec (App W Engine) BaseException (Unit {0})) → App W Engine → Type 0
  AllContained [] s = Unit
  AllContained (m ∷ ms) s = (is_contained (m s).0 ≡ true) × AllContained ms (m s).1

  safe_cleanup_contained :
      (m : Exec (App W Engine) BaseException (Unit {0})) (s : App W Engine)
      → is_contained (m s).0 ≡ true
      → safe_cleanup m s ≡ (ok tt, (m s).1)
  unfolding safe_cleanup
  safe_cleanup_contained m s h = elim (Exec-cases m s) [
    | inl (_, s', e) ↦ ground arith
    | inr (exception x, s', e) ↦ ground arith
    | inr (cancelled_error k, s', e) ↦ absurd (ground arith)
    | inr (exit_error x, s', e) ↦ absurd (ground arith)
  ]

  clean_up_contained :
      (ms : List (Exec (App W Engine) BaseException (Unit {0}))) (s : App W Engine)
      → AllContained ms s
      → clean_up ms s ≡ (ok tt, run_all ms s)
  clean_up_contained [] s h = refl
  clean_up_contained (m ∷ ms) s (contained, rest) =
      let cleaned = safe_cleanup_contained m s contained in
      let others = clean_up_contained ms (m s).1 rest in ground arith

module _ {W Engine Session Tracer Meter : Type 0} (c : Startup W Engine Session Tracer Meter) where
  -- However the application ends after it was started - it returns, raises or is cancelled - every
  -- resource is cleaned up, in order: the providers, the database, Redis, and the telemetry if there
  -- is any, also when the cleaning of one before it failed with an `Exception`. The outcome is the
  -- application's own, and a return where it was cancelled; no provider is left.
  pub lifespan-run_all :
      (serve : Exec (App W Engine) BaseException (Unit {0}))
      (otel_providers : Option (Tracer × Meter)) (s s₁ s₂ : App W Engine)
      (r : Result BaseException (Unit {0}))
      → start_up c s ≡ (ok otel_providers, s₁)
      → serve s₁ ≡ (r, s₂)
      → AllContained (cleanups c otel_providers) s₂
      → (lifespan c serve s ≡ (uncancelled r, run_all (cleanups c otel_providers) s₂))
        × ((run_all (cleanups c otel_providers) s₂).enp_state.providers ≡ [])
  unfolding lifespan
  lifespan-run_all serve otel_providers s s₁ s₂ r started served contained =
      let cleaned = clean_up_contained (cleanups c otel_providers) s₂ contained in
      (ground arith, providers_left otel_providers)
    where
      providers_left :
          (p : Option (Tracer × Meter)) → (run_all (cleanups c p) s₂).enp_state.providers ≡ []
      providers_left none = refl
      providers_left (some (t, m)) = refl
