-- ===== src/Limits/Factories.antt =====
-- Which limiters the factory functions of app/limits.py make.
use va_enp_api.Prelude.{
  ◌≡◌, refl, sym, ap, inl, inr, String, Bool, true, false, Option, none, some, arith, str_eq,
  Bool-cases, eq_iff,
}
use va_enp_api.Prelude.Int.{ℤ}
use va_enp_api.Effects.{ok}
use va_enp_api.Limits.Strategies.{
  fixed, daily, RateLimitConfig, checked_config, RateLimitStrategy, no_op, windowed, limit_of,
}
use va_enp_api.Limits.Limiter.{
  RateLimiter, Environment, or_default, or_no_op, service_rate_limiter, daily_rate_limiter,
  load_strategy,
}

abbrev pub is_windowed : RateLimitStrategy → Bool
is_windowed (no_op _) = false
is_windowed (windowed _) = true

-- Whether a variable of the environment names the windowed strategy.
abbrev pub names_windowed : Option String → Bool
names_windowed none = false
names_windowed (some name) = str_eq name "WindowedRateLimitStrategy"

-- What a limiter that was made for a limit and a variable of the environment is.
pub record IsMade (limit : ℤ) (name : Option String) (r : RateLimiter) : Type 0 where
  pub limited : limit_of r.strategy ≡ limit
  pub open_to_failures : r.fail_open ≡ true
  pub chosen : is_windowed r.strategy ≡ names_windowed name

module _ (config : RateLimitConfig) (fine : checked_config config ≡ ok config) where
  load-IsMade :
      (name : Option String)
      → (r : RateLimiter) × (or_no_op config.limit (load_strategy (or_default name) config) ≡ ok r)
        × IsMade config.limit name r
  unfolding load_strategy
  load-IsMade none = (
    record { strategy = no_op config; fail_open = true },
    ground arith,
    record { limited = refl; open_to_failures = refl; chosen = refl },
  )
  load-IsMade (some name) = elim (Bool-cases (str_eq name "NoOpRateLimitStrategy")) [
    | inl no_op_named ↦ (
      record { strategy = no_op config; fail_open = true },
      ground arith,
      record {
        limited = refl;
        open_to_failures = refl;
        chosen =
            sym (ap (λ n. str_eq n "WindowedRateLimitStrategy") ((eq_iff name _).0 no_op_named));
      },
    )
    | inr other ↦ elim (Bool-cases (str_eq name "WindowedRateLimitStrategy")) [
      | inl windowed_named ↦ (
        record { strategy = windowed config; fail_open = true },
        ground arith,
        record { limited = refl; open_to_failures = refl; chosen = ground arith },
      )
      | inr unknown ↦ (
        record {
          strategy =
              no_op (record { limit = config.limit; window_type = none; window_duration = none });
          fail_open = true;
        },
        ground arith,
        record { limited = refl; open_to_failures = refl; chosen = ground arith },
      )
    ]
  ]

-- Whatever the environment, the factories return a limiter: it has the configured limit, lets
-- requests pass when Redis fails, and counts windows exactly if the variable of its strategy names
-- the windowed strategy.
pub rate_limiters-IsMade :
    (env : Environment)
    → ((r : RateLimiter) × (service_rate_limiter env ≡ ok r)
        × IsMade env.rate_limit env.rate_limit_strategy r)
      × ((r : RateLimiter) × (daily_rate_limiter env ≡ ok r)
          × IsMade env.daily_rate_limit env.daily_rate_limit_strategy r)
unfolding service_rate_limiter daily_rate_limiter
rate_limiters-IsMade env = (
  load-IsMade
      (record {
        limit = env.rate_limit;
        window_type = some fixed;
        window_duration = some env.observation_period;
      })
      refl env.rate_limit_strategy,
  load-IsMade
      (record { limit = env.daily_rate_limit; window_type = some daily; window_duration = none })
      refl env.daily_rate_limit_strategy,
)
