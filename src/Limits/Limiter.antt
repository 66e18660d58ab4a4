-- ===== src/Limits/Limiter.antt =====
-- `RateLimiter` and the functions that make one, app/limits.py.
use va_enp_api.Prelude.{ℕ, String, Bool, true, false, Option, none, some, str_eq, if◌then◌else◌}
use va_enp_api.Prelude.Int.{ℤ, pos}
use va_enp_api.Effects.{
  Exception, value_error, http_exception, other_error, Result, ok, err, Exec, pure, raise,
  of_result, ◌>>=◌, catch, is_app_error,
}
use va_enp_api.Retry.{Tenacity}
use va_enp_api.Redis.Server.{Redis}
use va_enp_api.Auth.Service.{State, on_outside}
use va_enp_api.Limits.Strategies.{
  fixed, daily, RateLimitConfig, checked_config, RateLimitStrategy, no_op, windowed, is_allowed,
  get_error_message,
}

pub record RateLimiter : Type 0 where
  pub strategy : RateLimitStrategy
  pub fail_open : Bool

-- `context[…]`, a `KeyError` if the request has no such entry.
abbrev pub required : Option String → Result Exception String
required none = err (other_error "KeyError")
required (some s) = ok s

module _ {W : Type 0} (redis : Redis W) (tenacity : Tenacity W) (now : W → ℕ)
    (limiter : RateLimiter) where
  -- The `try` in `RateLimiter.__call__`.
  unfoldable pub allows : String → String → Exec W Exception Bool
  allows service_id api_key_id =
      catch (is_allowed redis tenacity now limiter.strategy service_id api_key_id)
        (λ x. if is_app_error x then pure limiter.fail_open else raise x)

  abbrev pub admit : Bool → Exec (State W) Exception (Unit {0})
  admit true = pure tt
  admit false = raise (http_exception 429 (get_error_message limiter.strategy))

  unfoldable pub enforce : Exec (State W) Exception (Unit {0})
  unfolding allows
  enforce = do
    context ← λ s. (ok s.context, s)
    request_id ← of_result (required context.request_id)
    service_id ← of_result (required context.service_id)
    api_key_id ← of_result (required context.api_key_id)
    allowed ← on_outside (allows service_id api_key_id)
    admit allowed

-- `_get_strategy_class`, and the call of the class.
pub data StrategyClass : Type 0 where
  no_op_class windowed_class : StrategyClass

unfoldable pub get_strategy_class : String → Result Exception StrategyClass
get_strategy_class name =
    if str_eq name "NoOpRateLimitStrategy"
    then ok no_op_class
    else if str_eq name "WindowedRateLimitStrategy"
    then ok windowed_class
    else err (value_error "Unknown rate limiting strategy")

abbrev pub instantiate : StrategyClass → RateLimitConfig → Result Exception RateLimitStrategy
instantiate no_op_class config = ok (no_op config)
instantiate windowed_class config = elim (checked_config config) [
  | err x ↦ err x
  | ok c ↦ ok (windowed c)
]

-- The environment variables; a missing strategy name has a default.
pub record Environment : Type 0 where
  pub rate_limit : ℤ
  pub observation_period : ℤ
  pub rate_limit_strategy : Option String
  pub daily_rate_limit : ℤ
  pub daily_rate_limit_strategy : Option String

abbrev pub or_default : Option String → String
or_default none = "NoOpRateLimitStrategy"
or_default (some name) = name

-- `except ValueError`: the fallback.
abbrev pub or_no_op : ℤ → Result Exception RateLimitStrategy → Result Exception RateLimiter
or_no_op limit (ok s) = ok (record { strategy = s; fail_open = true })
or_no_op limit (err (value_error _)) = ok (record {
  strategy = no_op (record { limit = limit; window_type = none; window_duration = none });
  fail_open = true;
})
or_no_op limit (err x) = err x

-- The body of the `try` in the factory functions.
unfoldable pub load_strategy : String → RateLimitConfig → Result Exception RateLimitStrategy
unfolding get_strategy_class checked_config
load_strategy name config = elim (get_strategy_class name) [
  | err x ↦ err x
  | ok strategy_class ↦ elim (checked_config config) [
    | err x ↦ err x
    | ok c ↦ instantiate strategy_class c
  ]
]

unfoldable pub service_rate_limiter : Environment → Result Exception RateLimiter
unfolding load_strategy
service_rate_limiter env = or_no_op env.rate_limit (
    load_strategy (or_default env.rate_limit_strategy) (record {
      limit = env.rate_limit;
      window_type = some fixed;
      window_duration = some env.observation_period;
    }))

unfoldable pub daily_rate_limiter : Environment → Result Exception RateLimiter
unfolding load_strategy
daily_rate_limiter env = or_no_op env.daily_rate_limit (
    load_strategy (or_default env.daily_rate_limit_strategy)
      (record { limit = env.daily_rate_limit; window_type = some daily; window_duration = none }))

unfoldable pub no_op_rate_limiter : RateLimiter
no_op_rate_limiter = record {
  strategy = no_op (record { limit = pos 0; window_type = none; window_duration = none });
  fail_open = true;
}
