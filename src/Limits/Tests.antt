-- ===== src/Limits/Tests.antt =====
-- Runs of the rate limiters.
use va_enp_api.Prelude.{ℕ, ◌+◌, ◌<◌, ◌≡◌, ◌↔◌, refl, String, true, none, some, List, [], ◌∷◌, min}
use va_enp_api.Prelude.Int.{ltb_ℤ, ℤ, pos, ◌-ℤ◌}
use va_enp_api.Effects.{retryable_error, ok, err}
use va_enp_api.Retry.{redis_retry}
use va_enp_api.Retry.Outcomes.{AllFail, last_fails, fails}
use va_enp_api.Retry.Samples.{simple_tenacity}
use va_enp_api.Redis.Server.{connection_error, Redis, set_entry, decr_entry}
use va_enp_api.Redis.Client.{attempt_token, consume_rate_limit_token}
use va_enp_api.Redis.Samples.{memory_lasts, Keys, memory, memory_IsRedis, empty_keys}
use va_enp_api.Auth.Service.{State}
use va_enp_api.Limits.Strategies.{
  daily, fixed, RateLimitConfig, windowed, get_key, is_allowed, calculate_daily_expiry,
  calculate_window_expiry,
}
use va_enp_api.Limits.Limiter.{RateLimiter, enforce, allows, Environment}
use va_enp_api.Limits.Laws.{
  Permitted, next_midnight, calculate_daily_expiry-eq-zero_iff, enforce-ok_iff,
}
use va_enp_api.Redis.Answers.{AlwaysAnswers}
use va_enp_api.Limits.Admissions.{Request, passes_of, passes_of-eq-min}
use va_enp_api.Limits.Keys.{get_key-inj}

-- Five requests in each half minute, and two a day.
abbrev by_period : RateLimitConfig
by_period = record { limit = pos 5; window_type = some fixed; window_duration = some (pos 30) }

abbrev by_day : RateLimitConfig
by_day = record { limit = pos 2; window_type = some daily; window_duration = none }

abbrev limiter : RateLimiter
limiter = record { strategy = windowed by_period; fail_open = true }

abbrev served : Keys → State Keys
served w = record {
  context = record { request_id = some "r"; api_key_id = some "k"; service_id = some "s" };
  outside = w;
}

abbrev noon : Keys → ℕ
noon w = 43200000000

-- One microsecond before midnight.
last_moment : calculate_daily_expiry 86399999999 ≡ 0
unfolding calculate_daily_expiry
last_moment = refl

calculate_daily_expiry-eq-zero_iff_example :
    (calculate_daily_expiry 86399999999 ≡ 0) ↔ (next_midnight 86399999999 < 86399999999 + 1000000)
calculate_daily_expiry-eq-zero_iff_example = calculate_daily_expiry-eq-zero_iff 86399999999

abbrev after_one : Keys
after_one = (attempt_token memory "rate-limit-s-k" (pos 5) (pos 30) empty_keys).1

enforce-ok_iff_example :
    (enforce memory (simple_tenacity Keys) noon limiter (served empty_keys)
      ≡ (ok tt, served after_one))
    ↔ Permitted memory (simple_tenacity Keys) noon limiter "s" "k" empty_keys after_one
enforce-ok_iff_example =
    enforce-ok_iff memory (simple_tenacity Keys) noon limiter "r" "s" "k" (served empty_keys)
      after_one refl refl refl

first_passes :
    enforce memory (simple_tenacity Keys) noon limiter (served empty_keys)
    ≡ (ok tt, served after_one)
unfolding enforce allows is_allowed consume_rate_limit_token attempt_token redis_retry get_key
    calculate_window_expiry set_entry decr_entry ◌-ℤ◌
first_passes = refl

-- A Redis that cannot be reached.
abbrev down : Redis Keys
down = record {
  set_nx = λ k v ex w. (err connection_error, w);
  get = λ k w. (err connection_error, w);
  decrby = λ k w. (err connection_error, w);
  aclose = λ w. (ok tt, w);
  disconnect = λ w. (ok tt, w);
}

three_fail :
    AllFail
      (λ w. w)
      (attempt_token down "rate-limit-s-k" (pos 5) (pos 30))
      2
      empty_keys
      (retryable_error (some "Redis rate limit operation failed (connection issue)"))
      empty_keys
unfolding attempt_token
three_fail = fails refl refl (fails refl refl (last_fails refl refl))

abbrev environment : Environment
environment = record {
  rate_limit = pos 5;
  observation_period = pos 30;
  rate_limit_strategy = some "WindowedRateLimitStrategy";
  daily_rate_limit = pos 1000;
  daily_rate_limit_strategy = some "Unheard";
}

get_key-inj_example : (◌≡◌ {A = String} "s" "s") × (◌≡◌ {A = String} "k-1" "k-1")
get_key-inj_example = get_key-inj by_period "s" "k-1" "s" "k-1" refl refl

-- Five requests may pass; one of the seven is another caller's.
abbrev asked : String → Request
asked api_key_id = record { request_id = "r"; service_id = "s"; api_key_id = api_key_id }

abbrev seven : List Request
seven = asked "k" ∷ asked "k" ∷ asked "j" ∷ asked "k" ∷ asked "k" ∷ asked "k" ∷ asked "k" ∷ []

memory_answers : AlwaysAnswers memory
memory_answers = record {
  sets = λ key value expiry w lasts. (_, memory_lasts key value expiry w lasts);
  gets = λ key w. (_, _, refl);
  decrs = λ key w. (_, refl);
}

always_expires :
    (w : Keys)
    → (z : ℤ) × (calculate_window_expiry by_period (noon w) ≡ ok z) × (ltb_ℤ (pos 0) z ≡ true)
unfolding calculate_window_expiry
always_expires w = (pos 30, refl, refl)

passes_of-eq-min_example :
    passes_of memory (simple_tenacity Keys) noon by_period true "rate-limit-s-k" seven empty_keys
    ≡ min 6 5
unfolding get_key
passes_of-eq-min_example =
    passes_of-eq-min memory (simple_tenacity Keys) noon by_period true memory_IsRedis memory_answers
      always_expires "rate-limit-s-k" seven 5 empty_keys refl
