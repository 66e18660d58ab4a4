-- ===== src/Limits/Strategies.antt =====
-- The strategies of app/limits.py.
use va_enp_api.Prelude.{
  ℕ, ◌+◌, ◌-◌, ◌*◌, ◌/◌, String, Bool, true, Option, none, some, [], ◌∷◌, f_string,
}
use va_enp_api.Prelude.Int.{ℤ, pos}
use va_enp_api.Constants.{response_429}
use va_enp_api.Effects.{Exception, value_error, other_error, Result, ok, err, Exec}
use va_enp_api.Retry.{Tenacity}
use va_enp_api.Redis.Server.{Redis}
use va_enp_api.Redis.Client.{consume_rate_limit_token}

pub data WindowType : Type 0 where
  fixed daily : WindowType

pub record RateLimitConfig : Type 0 where
  pub limit : ℤ
  pub window_type : Option WindowType
  pub window_duration : Option ℤ

abbrev missing_duration : Exception
missing_duration = value_error "window_duration is required for FIXED window type"

-- `RateLimitConfig(…)` with its `__post_init__`; the constructor of `WindowedRateLimitStrategy`
-- makes the same test again.
unfoldable pub checked_config : RateLimitConfig → Result Exception RateLimitConfig
checked_config config = elim config.window_type [
  | some fixed ↦ elim config.window_duration [ none ↦ err missing_duration | some _ ↦ ok config ]
  | some daily ↦ ok config
  | none ↦ ok config
]

pub data RateLimitStrategy : Type 0 where
  no_op windowed : RateLimitConfig → RateLimitStrategy

abbrev pub config_of : RateLimitStrategy → RateLimitConfig
config_of (no_op config) = config
config_of (windowed config) = config

-- The attributes `limit` and `window`.
abbrev pub limit_of : RateLimitStrategy → ℤ
limit_of s = (config_of s).limit

abbrev pub window_of_config : RateLimitConfig → Option ℤ
window_of_config config = elim config.window_type [
  | some fixed ↦ config.window_duration
  | some daily ↦ none
  | none ↦ none
]

abbrev pub window_of : RateLimitStrategy → Option ℤ
window_of s = window_of_config (config_of s)

-- The f-strings of `WindowedRateLimitStrategy.get_key`.
abbrev pub key_of : Option WindowType → String → String → String
key_of (some daily) service_id api_key_id =
    f_string ("remaining-daily-limit-" ∷ service_id ∷ "-" ∷ api_key_id ∷ [])
key_of (some fixed) service_id api_key_id =
    f_string ("rate-limit-" ∷ service_id ∷ "-" ∷ api_key_id ∷ [])
key_of none service_id api_key_id = f_string ("rate-limit-" ∷ service_id ∷ "-" ∷ api_key_id ∷ [])

unfoldable pub get_key : RateLimitStrategy → String → String → String
get_key (no_op config) service_id api_key_id =
    f_string ("noop-" ∷ service_id ∷ "-" ∷ api_key_id ∷ [])
get_key (windowed config) service_id api_key_id = key_of config.window_type service_id api_key_id

abbrev pub microseconds_per_day : ℕ
microseconds_per_day = 86400000000

-- `_calculate_daily_expiry`, at a time in microseconds since an earlier midnight UTC:
-- `int` drops the fraction of a second.
unfoldable pub calculate_daily_expiry : ℕ → ℕ
calculate_daily_expiry now =
    let next_reset = (now / microseconds_per_day + 1) * microseconds_per_day in
    (next_reset - now) / 1000000

-- `_calculate_window_expiry`
unfoldable pub calculate_window_expiry : RateLimitConfig → ℕ → Result Exception ℤ
unfolding calculate_daily_expiry
calculate_window_expiry config now = elim config.window_type [
  | some fixed ↦ elim config.window_duration [
    | none ↦ err (other_error "AssertionError")
    | some duration ↦ ok duration
  ]
  | some daily ↦ ok (pos (calculate_daily_expiry now))
  | none ↦ err (value_error "Unsupported window type: None")
]

-- `datetime.datetime.now(datetime.timezone.utc)` is read off the world.
module _ {W : Type 0} (redis : Redis W) (tenacity : Tenacity W) (now : W → ℕ) where
  unfoldable pub is_allowed : RateLimitStrategy → String → String → Exec W Exception Bool
  unfolding get_key calculate_window_expiry
  is_allowed (no_op config) service_id api_key_id w = (ok true, w)
  is_allowed (windowed config) service_id api_key_id w =
      elim (calculate_window_expiry config (now w)) [
        | err x ↦ (err x, w)
        | ok window_expiry ↦
            consume_rate_limit_token redis tenacity
              (get_key (windowed config) service_id api_key_id) config.limit window_expiry w
      ]

unfoldable pub get_error_message : RateLimitStrategy → String
get_error_message (no_op config) = "Rate limit exceeded"
get_error_message (windowed config) = elim config.window_type [
  | some daily ↦ "Daily rate limit exceeded"
  | some fixed ↦ response_429
  | none ↦ response_429
]
