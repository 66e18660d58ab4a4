-- ===== src/Redis/Client.antt =====
-- `RedisClientManager` of app/clients/redis_client.py.
use va_enp_api.Prelude.{String, Bool, true, false, Option, none, some, str_eq, if◌then◌else◌}
use va_enp_api.Prelude.Int.{ℤ, pos, ltb_ℤ}
use va_enp_api.Effects.{
  Exception, retryable_error, non_retryable_error, value_error, Result, ok, err, Exec, pure, raise,
  ◌>>=◌, ◌>>◌, catch,
}
use va_enp_api.Retry.{Tenacity, redis_retry}
use va_enp_api.Redis.Server.{
  RedisFault, connection_error, timeout_error, redis_error, not_redis, Reply, number, text, Redis,
}

-- The clauses `except (ConnectionError, TimeoutError)` and `except RedisError`.
abbrev pub translate_fault : RedisFault → Exception
translate_fault connection_error =
    retryable_error (some "Redis rate limit operation failed (connection issue)")
translate_fault timeout_error =
    retryable_error (some "Redis rate limit operation failed (connection issue)")
translate_fault redis_error = non_retryable_error (some "Redis rate limit operation failed")
translate_fault (not_redis x) = x

-- `current and int(current) > 0`: an empty text is false, and a text of no digits a `ValueError`.
abbrev pub is_positive : Option Reply → Result RedisFault Bool
is_positive none = ok false
is_positive (some (number n)) = ok (ltb_ℤ (pos 0) n)
is_positive (some (text s)) =
    if str_eq s "" then ok false else err (not_redis (value_error "invalid literal for int()"))

module _ {W : Type 0} (redis : Redis W) where
  -- The part of the body after `client.get`.
  abbrev pub take_token : String → Option Reply → Exec W RedisFault Bool
  take_token key current w = elim (is_positive current) [
    | err f ↦ (err f, w)
    | ok false ↦ (ok false, w)
    | ok true ↦ (redis.decrby key >> pure true) w
  ]

  abbrev pub commands : String → ℤ → ℤ → Exec W RedisFault Bool
  commands key limit window = do
    redis.set_nx key limit window
    current ← redis.get key
    take_token key current

  -- One attempt of `consume_rate_limit_token`.
  unfoldable pub attempt_token : String → ℤ → ℤ → Exec W Exception Bool
  attempt_token key limit window =
      catch (commands key limit window) (λ f. raise (translate_fault f))

  unfoldable pub consume_rate_limit_token : Tenacity W → String → ℤ → ℤ → Exec W Exception Bool
  consume_rate_limit_token tenacity key limit window =
      redis_retry tenacity Bool (attempt_token key limit window)

  -- `close`, which closes the client if one was made, and swallows the driver's exceptions.
  abbrev swallow : RedisFault → Exec W Exception (Unit {0})
  swallow (not_redis x) = raise x
  swallow _ = pure tt

  abbrev close_client : Bool → Exec W RedisFault (Unit {0})
  close_client true = redis.aclose
  close_client false = pure tt

  unfoldable pub close : Bool → Exec W Exception (Unit {0})
  close has_client = catch (close_client has_client >> redis.disconnect) swallow
