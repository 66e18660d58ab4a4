-- ===== src/Retry.antt =====
-- The retry decorators: app/legacy/dao/utils.py (`db_retry`), app/legacy/clients/utils.py
-- (`client_retry`), app/clients/redis_client.py (`redis_retry`) and app/utils.py. The library that
-- runs the attempts, tenacity, is a parameter with its documented behaviour.
pub mod Outcomes
pub mod Samples
mod Tests
use va_enp_api.Prelude.{ℕ, suc, ◌≤◌, ◌≡◌, Bool, true, false, Option, none, some, String}
use va_enp_api.Effects.{
  Exception, type_error, Result, ok, err, Exec, is_retryable, pure, raise, ◌>>=◌,
}

-- The keyword arguments of `tenacity.retry` that decide what a call returns.
pub record Retrying (A : Type 0) : Type 0 where
  pub retry : Exception → Bool
  pub stop_after_attempt : ℕ
  pub reraise : Bool
  pub retry_error_callback : Option (Exception → A)

-- Tenacity over a world. `pause` is what happens to the world while an attempt is waited for.
pub record Tenacity (W : Type 0) : Type 1 where
  pub run : (A : Type 0) → Retrying A → Exec W Exception A → Exec W Exception A
  pub pause : W → W
  pub returns :
      (A : Type 0) (p : Retrying A) (m : Exec W Exception A) (w w' : W) (a : A)
      → m w ≡ (ok a, w')
      → run A p m w ≡ (ok a, w')
  pub raises_other :
      (A : Type 0) (p : Retrying A) (m : Exec W Exception A) (w w' : W) (x : Exception)
      → m w ≡ (err x, w')
      → p.retry x ≡ false
      → run A p m w ≡ (err x, w')
  pub tries_again :
      (A : Type 0) (p : Retrying A) (m : Exec W Exception A) (w w' : W) (x : Exception) (n : ℕ)
      → m w ≡ (err x, w')
      → p.retry x ≡ true
      → p.stop_after_attempt ≡ suc (suc n)
      → run A p m w ≡ run A (record p { stop_after_attempt = suc n }) m (pause w')
  pub calls_back :
      (A : Type 0) (p : Retrying A) (m : Exec W Exception A) (w w' : W) (x : Exception)
      (f : Exception → A)
      → m w ≡ (err x, w')
      → p.retry x ≡ true
      → p.stop_after_attempt ≤ 1
      → p.retry_error_callback ≡ some f
      → run A p m w ≡ (ok (f x), w')
  pub reraises :
      (A : Type 0) (p : Retrying A) (m : Exec W Exception A) (w w' : W) (x : Exception)
      → m w ≡ (err x, w')
      → p.retry x ≡ true
      → p.stop_after_attempt ≤ 1
      → p.retry_error_callback ≡ none
      → p.reraise ≡ true
      → run A p m w ≡ (err x, w')

abbrev pub max_db_retries : ℕ
max_db_retries = 3

abbrev pub max_client_retries : ℕ
max_client_retries = 5

abbrev pub max_redis_retries : ℕ
max_redis_retries = 3

-- It logs, and returns `None`.
abbrev pub log_last_attempt_on_failure : {A : Type 0} → Exception → Option A
log_last_attempt_on_failure x = none

-- All the decorators retry on `RetryableError` and reraise; they differ in attempts and callback.
abbrev pub policy : {A : Type 0} → Option (Exception → A) → ℕ → Retrying A
policy callback attempts = record {
  retry = is_retryable;
  stop_after_attempt = attempts;
  reraise = true;
  retry_error_callback = callback;
}

-- `await` of what a call returned: a coroutine, or `None`.
abbrev pub awaited : {W A : Type 0} → Option (Exec W Exception A) → Exec W Exception A
awaited none = raise type_error
awaited (some coroutine) = coroutine

module _ {W : Type 0} (tenacity : Tenacity W) (A : Type 0) where
  -- Every use of this decorator is over `@staticmethod`. Such an object is no coroutine function, so
  -- tenacity takes it for a plain function, whose call returns a coroutine that has not run: that
  -- call is what is retried. The DAO awaits what it returns.
  unfoldable pub db_retry : Exec W Exception A → Exec W Exception A
  db_retry coroutine =
      tenacity.run (Option (Exec W Exception A))
        (policy (some log_last_attempt_on_failure) max_db_retries) (pure (some coroutine))
      >>= awaited

  -- The other two decorate coroutine functions, which tenacity awaits in each attempt. The body of a
  -- client never returns `None`: `none` comes from the callback alone.
  unfoldable pub client_retry : Exec W Exception (Option A) → Exec W Exception (Option A)
  client_retry =
      tenacity.run (Option A) (policy (some log_last_attempt_on_failure) max_client_retries)

  unfoldable pub redis_retry : Exec W Exception A → Exec W Exception A
  redis_retry = tenacity.run A (policy none max_redis_retries)
