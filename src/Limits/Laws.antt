-- ===== src/Limits/Laws.antt =====
-- When `RateLimiter` of app/limits.py lets a request pass, and which limiters the factories make.
use va_enp_api.Prelude.{
  ℕ, ◌+◌, ◌*◌, ◌/◌, ◌≤◌, ◌<◌, ◌≡◌, ◌↔◌, inl, inr, String, true, false, some, arith, Bool-cases,
}
use va_enp_api.Prelude.Int.{ℤ}
use va_enp_api.Effects.{Exception, ok, err, Exec-cases, is_app_error}
use va_enp_api.Retry.{Tenacity}
use va_enp_api.Retry.Outcomes.{AllFail, redis_retry_exhausted}
use va_enp_api.Redis.Server.{Redis}
use va_enp_api.Redis.Client.{attempt_token, consume_rate_limit_token}
use va_enp_api.Auth.Service.{State}
use va_enp_api.Limits.Strategies.{
  RateLimitConfig, windowed, get_key, calculate_daily_expiry, calculate_window_expiry,
  microseconds_per_day, is_allowed,
}
use va_enp_api.Limits.Limiter.{RateLimiter, allows, enforce}

-- The next midnight UTC.
abbrev pub next_midnight : ℕ → ℕ
next_midnight now = (now / microseconds_per_day + 1) * microseconds_per_day

-- The expiry of a daily counter is the number of whole seconds to the next midnight UTC: at most
-- 86400, never past midnight, and less than a second before it.
pub calculate_daily_expiry_bounds :
    (now : ℕ)
    → (calculate_daily_expiry now ≤ 86400)
      × (now + calculate_daily_expiry now * 1000000 ≤ next_midnight now)
      × (next_midnight now < now + (calculate_daily_expiry now + 1) * 1000000)
unfolding calculate_daily_expiry
calculate_daily_expiry_bounds now = omega arith

-- In the last second of a day, and only then, the expiry of a daily counter is 0 seconds, which
-- Redis does not accept as one.
pub calculate_daily_expiry-eq-zero_iff :
    (now : ℕ) → (calculate_daily_expiry now ≡ 0) ↔ (next_midnight now < now + 1000000)
unfolding calculate_daily_expiry
calculate_daily_expiry-eq-zero_iff now = (λ h. omega arith, λ h. omega arith)

module _ {W : Type 0} (redis : Redis W) (tenacity : Tenacity W) (now : W → ℕ)
    (limiter : RateLimiter) where
  -- The two ways for a request to pass: the strategy allows it, or Redis failed and the limiter is
  -- open to failures.
  pub data Permitted (service_id api_key_id : String) (w w' : W) : Type 0 where
    by_strategy :
        is_allowed redis tenacity now limiter.strategy service_id api_key_id w ≡ (ok true, w')
        → Permitted service_id api_key_id w w'
    by_failure :
        (x : Exception)
        → is_allowed redis tenacity now limiter.strategy service_id api_key_id w ≡ (err x, w')
        → is_app_error x ≡ true
        → limiter.fail_open ≡ true
        → Permitted service_id api_key_id w w'

  module _ (request_id service_id api_key_id : String) (s : State W) (w' : W)
      (numbered : s.context.request_id ≡ some request_id)
      (served : s.context.service_id ≡ some service_id)
      (keyed : s.context.api_key_id ≡ some api_key_id) where
    allows-Permitted :
        allows redis tenacity now limiter service_id api_key_id s.outside ≡ (ok true, w')
        → Permitted service_id api_key_id s.outside w'
    unfolding allows
    allows-Permitted h =
        elim (Exec-cases (is_allowed redis tenacity now limiter.strategy service_id api_key_id)
          s.outside) [
            | inl (b, w₁, e) ↦ by_strategy (ground arith)
            | inr (x, w₁, e) ↦ elim (Bool-cases (is_app_error x)) [
              | inl app ↦
                  by_failure x (let same : w₁ ≡ w' = ground arith in rw (← same) e) app
                    (ground arith)
              | inr other ↦ absurd (ground arith)
            ]
          ]

    Permitted-allows :
        Permitted service_id api_key_id s.outside w'
        → allows redis tenacity now limiter service_id api_key_id s.outside ≡ (ok true, w')
    unfolding allows
    Permitted-allows (by_strategy e) = ground arith
    Permitted-allows (by_failure x e app open_) = ground arith

    enforce-allows :
        enforce redis tenacity now limiter s ≡ (ok tt, record s { outside = w' })
        → allows redis tenacity now limiter service_id api_key_id s.outside ≡ (ok true, w')
    unfolding enforce
    enforce-allows h =
        elim (Exec-cases (allows redis tenacity now limiter service_id api_key_id) s.outside) [
          | inl (true, w₁, e) ↦ ground arith
          | inl (false, w₁, e) ↦ absurd (ground arith)
          | inr (x, w₁, e) ↦ absurd (ground arith)
        ]

    -- A request whose context is complete passes the limiter exactly when the strategy allows it, or
    -- Redis failed and the limiter is open to failures.
    pub enforce-ok_iff :
        (enforce redis tenacity now limiter s ≡ (ok tt, record s { outside = w' }))
        ↔ Permitted service_id api_key_id s.outside w'
    unfolding enforce
    enforce-ok_iff =
        (λ h. allows-Permitted (enforce-allows h), λ p. let h = Permitted-allows p in ground arith)

  -- While every attempt at Redis fails with a lost connection or a timeout, a limiter of windows that
  -- is open to failures lets each request with a complete context pass, after three attempts.
  pub enforce_redis_down :
      (config : RateLimitConfig) (window : ℤ) (request_id service_id api_key_id : String)
      (s : State W) (w' : W) (x : Exception)
      → limiter.strategy ≡ windowed config
      → limiter.fail_open ≡ true
      → s.context.request_id ≡ some request_id
      → s.context.service_id ≡ some service_id
      → s.context.api_key_id ≡ some api_key_id
      → calculate_window_expiry config (now s.outside) ≡ ok window
      → AllFail tenacity.pause
          (attempt_token redis
            (get_key (windowed config) service_id api_key_id)
            config.limit
            window)
          2
          s.outside
          x
          w'
      → is_app_error x ≡ true
      → enforce redis tenacity now limiter s ≡ (ok tt, record s { outside = w' })
  unfolding is_allowed consume_rate_limit_token
  enforce_redis_down config window request_id service_id api_key_id s w' x strategy open_ numbered
        served keyed expiry fail app =
      let key = get_key (windowed config) service_id api_key_id in
      let down =
        redis_retry_exhausted tenacity (attempt_token redis key config.limit window) fail in
      (enforce-ok_iff request_id service_id api_key_id s w' numbered served keyed).1
        (by_failure x (rw strategy (ground arith)) app open_)
