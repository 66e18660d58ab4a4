-- ===== src/Retry/Outcomes.antt =====
-- What a call of a retried function can come to: app/utils.py and the three retry decorators.
use va_enp_api.Prelude.{
  ℕ, zero, suc, ◌≤◌, String, ◌≡◌, ◌≢◌, refl, ◌∙◌, inl, inr, true, false, Option, none, some, arith,
  Bool-cases,
}
use va_enp_api.Effects.{
  Exception, retryable_error, Result, ok, err, Exec, is_retryable, pure, Exec-cases,
}
use va_enp_api.Retry.{
  Tenacity, policy, log_last_attempt_on_failure, max_db_retries, db_retry, client_retry,
  redis_retry,
}

-- The runs of a body with `n` more attempts allowed after this one. `last` is what is made of the
-- exception of the last attempt.
pub data Tries {W A : Type 0} (pause : W → W) (m : Exec W Exception A)
    (last : Exception → Result Exception A) : ℕ → W → Result Exception A × W → Type 0 where
  done : {n : ℕ} {w w' : W} {a : A} → m w ≡ (ok a, w') → Tries pause m last n w (ok a, w')
  failed :
      {n : ℕ} {w w' : W} {x : Exception}
      → m w ≡ (err x, w')
      → is_retryable x ≡ false
      → Tries pause m last n w (err x, w')
  again :
      {n : ℕ} {w w' : W} {x : Exception} {out : Result Exception A × W}
      → m w ≡ (err x, w')
      → is_retryable x ≡ true
      → Tries pause m last n (pause w') out
      → Tries pause m last (suc n) w out
  exhausted :
      {w w' : W} {x : Exception}
      → m w ≡ (err x, w')
      → is_retryable x ≡ true
      → Tries pause m last zero w (last x, w')

-- This attempt and `n` more all fail with `RetryableError`; the last raises `x` and leaves `w'`.
pub data AllFail {W A : Type 0} (pause : W → W) (m : Exec W Exception A)
    : ℕ → W → Exception → W → Type 0 where
  last_fails :
      {w w' : W} {x : Exception}
      → m w ≡ (err x, w')
      → is_retryable x ≡ true
      → AllFail pause m zero w x w'
  fails :
      {n : ℕ} {w w' w'' : W} {x y : Exception}
      → m w ≡ (err x, w')
      → is_retryable x ≡ true
      → AllFail pause m n (pause w') y w''
      → AllFail pause m (suc n) w y w''

-- The attempt that starts from the last state comes after at most `n` attempts, which all failed
-- with `RetryableError`, each with a pause after it.
pub data Reaches {W A : Type 0} (pause : W → W) (m : Exec W Exception A) : ℕ → W → W → Type 0 where
  at_once : {n : ℕ} {w : W} → Reaches pause m n w w
  after :
      {n : ℕ} {w w' w₀ : W} {x : Exception}
      → m w ≡ (err x, w')
      → is_retryable x ≡ true
      → Reaches pause m n (pause w') w₀
      → Reaches pause m (suc n) w w₀

-- What is made of the last exception: the callback's value, or the exception raised again.
abbrev pub settled : {A : Type 0} → Option (Exception → A) → Exception → Result Exception A
settled none x = err x
settled (some f) x = ok (f x)

-- How many attempts may follow the first: a stop after no attempt is one after the first.
abbrev pub more_attempts : ℕ → ℕ
more_attempts zero = zero
more_attempts (suc n) = n

module _ {W : Type 0} (t : Tenacity W) {A : Type 0} (m : Exec W Exception A) where
  run_last :
      (c : Option (Exception → A)) (k : ℕ) (w w' : W) (x : Exception)
      → k ≤ 1
      → m w ≡ (err x, w')
      → is_retryable x ≡ true
      → t.run A (policy c k) m w ≡ (settled c x, w')
  run_last none k w w' x l e r = t.reraises A (policy none k) m w w' x e r l refl refl
  run_last (some f) k w w' x l e r = t.calls_back A (policy (some f) k) m w w' x f e r l refl

  -- The last attempt that is allowed.
  run_last-Tries :
      (c : Option (Exception → A)) (k : ℕ) (w : W)
      → k ≤ 1
      → Tries t.pause m (settled c) zero w (t.run A (policy c k) m w)
  run_last-Tries c k w l = elim (Exec-cases m w) [
    | inl (a, w', e) ↦ rw (t.returns A (policy c k) m w w' a e) (done e)
    | inr (x, w', e) ↦ elim (Bool-cases (is_retryable x)) [
      | inl r ↦ rw (run_last c k w w' x l e r) (exhausted e r)
      | inr r ↦ rw (t.raises_other A (policy c k) m w w' x e r) (failed e r)
    ]
  ]

  pub run-Tries :
      (c : Option (Exception → A)) (n : ℕ) (w : W)
      → Tries t.pause m (settled c) n w (t.run A (policy c (suc n)) m w)
  run-Tries c zero w = run_last-Tries c 1 w (omega arith)
  run-Tries c (suc n) w = elim (Exec-cases m w) [
    | inl (a, w', e) ↦ rw (t.returns A (policy c (suc (suc n))) m w w' a e) (done e)
    | inr (x, w', e) ↦ elim (Bool-cases (is_retryable x)) [
      | inl r ↦
          rw (t.tries_again A (policy c (suc (suc n))) m w w' x n e r refl)
            (again e r (run-Tries c n (t.pause w')))
      | inr r ↦ rw (t.raises_other A (policy c (suc (suc n))) m w w' x e r) (failed e r)
    ]
  ]

  pub run-Tries_any :
      (c : Option (Exception → A)) (k : ℕ) (w : W)
      → Tries t.pause m (settled c) (more_attempts k) w (t.run A (policy c k) m w)
  run-Tries_any c zero w = run_last-Tries c zero w (omega arith)
  run-Tries_any c (suc n) w = run-Tries c n w

  pub run_exhausted :
      (c : Option (Exception → A)) (n : ℕ) {w w' : W} {x : Exception}
      → AllFail t.pause m n w x w'
      → t.run A (policy c (suc n)) m w ≡ (settled c x, w')
  run_exhausted c zero (last_fails e r) = run_last c 1 _ _ _ (omega arith) e r
  run_exhausted c (suc n) (fails e r rest) =
      t.tries_again A (policy c (suc (suc n))) m _ _ _ n e r refl ∙ run_exhausted c n rest

-- A run whose last exception is turned into a value raises no `RetryableError`.
pub Tries-ne-retryable :
    {W A : Type 0} {pause : W → W} {m : Exec W Exception A} {f : Exception → A} {n : ℕ} {w : W}
    {out : Result Exception A × W} (msg : Option String)
    → Tries pause m (settled (some f)) n w out
    → out.0 ≢ err (retryable_error msg)
Tries-ne-retryable msg (done e) = cc
Tries-ne-retryable msg (failed {x = x} e r) = λ h. ground arith
Tries-ne-retryable msg (again e r rest) = Tries-ne-retryable msg rest
Tries-ne-retryable msg (exhausted e r) = cc

-- Where the last exception is raised again, a value comes from the last attempt, which returned it.
pub Tries-returned :
    {W A : Type 0} {pause : W → W} {m : Exec W Exception A} {n : ℕ} {w w' : W} {a : A}
    {out : Result Exception A × W}
    → Tries pause m err n w out
    → out ≡ (ok a, w')
    → (w₀ : W) × Reaches pause m n w w₀ × (m w₀ ≡ (ok a, w'))
Tries-returned (done {w = w} e) h = (w, at_once, e ∙ h)
Tries-returned (failed e r) h = absurd (ground arith)
Tries-returned (again e r rest) h =
    let (w₀, reached, returned) = Tries-returned rest h in (w₀, after e r reached, returned)
Tries-returned (exhausted e r) h = absurd (ground arith)

-- Where it is turned into `None`, any other value comes from the last attempt, which returned it.
pub Tries-returned_some :
    {W A : Type 0} {pause : W → W} {m : Exec W Exception (Option A)} {n : ℕ} {w w' : W} {a : A}
    {out : Result Exception (Option A) × W}
    → Tries pause m (settled (some log_last_attempt_on_failure)) n w out
    → out ≡ (ok (some a), w')
    → (w₀ : W) × Reaches pause m n w w₀ × (m w₀ ≡ (ok (some a), w'))
Tries-returned_some (done {w = w} e) h = (w, at_once, e ∙ h)
Tries-returned_some (failed e r) h = absurd (ground arith)
Tries-returned_some (again e r rest) h =
    let (w₀, reached, returned) = Tries-returned_some rest h in (w₀, after e r reached, returned)
Tries-returned_some (exhausted e r) h = absurd (ground arith)

module _ {W : Type 0} (t : Tenacity W) {A : Type 0} where
  pub db_retry-once : (m : Exec W Exception A) (w : W) → db_retry t A m w ≡ m w
  unfolding db_retry
  db_retry-once m w =
      let made =
        t.returns (Option (Exec W Exception A))
          (policy (some log_last_attempt_on_failure) max_db_retries) (pure (some m)) w w (some m)
          refl in
      ground arith

  -- A call under `client_retry` runs its body five times at most, again only after a
  -- `RetryableError`; it returns what an attempt returns, raises what an attempt raises that is no
  -- `RetryableError`, and returns `None` after five that were.
  pub client_retry-Tries :
      (m : Exec W Exception (Option A)) (w : W)
      → Tries t.pause m (settled (some log_last_attempt_on_failure)) 4 w (client_retry t A m w)
  unfolding client_retry
  client_retry-Tries m w = run-Tries t m (some log_last_attempt_on_failure) 4 w

  -- After five attempts that fail with `RetryableError` a call under `client_retry` returns `None`.
  pub client_retry_exhausted :
      (m : Exec W Exception (Option A)) {w w' : W} {x : Exception}
      → AllFail t.pause m 4 w x w'
      → client_retry t A m w ≡ (ok none, w')
  unfolding client_retry
  client_retry_exhausted m h = run_exhausted t m (some log_last_attempt_on_failure) 4 h

  pub client_retry-ne-retryable :
      (m : Exec W Exception (Option A)) (w : W) (msg : Option String)
      → (client_retry t A m w).0 ≢ err (retryable_error msg)
  client_retry-ne-retryable m w msg = Tries-ne-retryable msg (client_retry-Tries m w)

  -- A call under `redis_retry` runs its body three times at most, again only after a
  -- `RetryableError`; it returns what an attempt returns, and raises the exception of the last
  -- attempt.
  pub redis_retry-Tries :
      (m : Exec W Exception A) (w : W) → Tries t.pause m err 2 w (redis_retry t A m w)
  unfolding redis_retry
  redis_retry-Tries m w = run-Tries t m none 2 w

  pub redis_retry_exhausted :
      (m : Exec W Exception A) {w w' : W} {x : Exception}
      → AllFail t.pause m 2 w x w'
      → redis_retry t A m w ≡ (err x, w')
  unfolding redis_retry
  redis_retry_exhausted m h = run_exhausted t m none 2 h
