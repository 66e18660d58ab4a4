-- ===== src/Retry/Samples.antt =====
-- A retry loop that meets what is documented of tenacity, so that the hypotheses about it can hold.
use va_enp_api.Prelude.{
  ℕ, zero, suc, ◌≤◌, ◌≡◌, ◌∙◌, Bool, true, false, Option, none, some, arith, if◌then◌else◌,
}
use va_enp_api.Effects.{Exception, Result, ok, err, Exec}
use va_enp_api.Retry.{Retrying, Tenacity}

-- What follows a failed attempt when no more are allowed.
abbrev give_up : {A : Type 0} → Option (Exception → A) → Exception → Result Exception A
give_up none x = err x
give_up (some f) x = ok (f x)

module _ {W A : Type 0} (retry : Exception → Bool) (callback : Option (Exception → A))
    (m : Exec W Exception A) where
  -- The attempts, with the number of those that may follow a failed one.
  abbrev attempts : ℕ → Exec W Exception A
  attempts zero w =
      let (r, w') = m w in
      elim r [
        | ok a ↦ (ok a, w')
        | err x ↦ if retry x then (give_up callback x, w') else (err x, w')
      ]
  attempts (suc n) w =
      let (r, w') = m w in
      elim r [
        | ok a ↦ (ok a, w')
        | err x ↦ let rest = attempts n w' in if retry x then rest else (err x, w')
      ]

abbrev pred : ℕ → ℕ
pred zero = zero
pred (suc n) = n

abbrev run_attempts :
    {W : Type 0} (A : Type 0) → Retrying A → Exec W Exception A → Exec W Exception A
run_attempts A p m = attempts p.retry p.retry_error_callback m (pred p.stop_after_attempt)

module _ {W A : Type 0} (retry : Exception → Bool) (c : Option (Exception → A))
    (m : Exec W Exception A) (w w' : W) where
  pub attempts-ok : (n : ℕ) (a : A) → m w ≡ (ok a, w') → attempts retry c m n w ≡ (ok a, w')
  attempts-ok zero a e = ground arith
  attempts-ok (suc n) a e = ground arith

  pub attempts_other :
      (n : ℕ) (x : Exception)
      → m w ≡ (err x, w')
      → retry x ≡ false
      → attempts retry c m n w ≡ (err x, w')
  attempts_other zero x e r = ground arith
  attempts_other (suc n) x e r = ground arith

  pub attempts_again :
      (k n : ℕ) (x : Exception)
      → m w ≡ (err x, w')
      → retry x ≡ true
      → k ≡ suc (suc n)
      → attempts retry c m (pred k) w ≡ attempts retry c m n w'
  attempts_again k n x e r s = rw s (ground arith)

  pub attempts_last :
      (k : ℕ) (x : Exception)
      → m w ≡ (err x, w')
      → retry x ≡ true
      → k ≤ 1
      → attempts retry c m (pred k) w ≡ (give_up c x, w')
  attempts_last zero x e r s = ground arith
  attempts_last (suc zero) x e r s = ground arith
  attempts_last (suc (suc k)) x e r s = absurd (omega arith)

-- Tenacity without waiting.
abbrev pub simple_tenacity : (W : Type 0) → Tenacity W
simple_tenacity W = record {
  run = run_attempts;
  pause = λ w. w;
  returns = λ A p m w w' a e.
      attempts-ok p.retry p.retry_error_callback m w w' (pred p.stop_after_attempt) a e;
  raises_other = λ A p m w w' x e r.
      attempts_other p.retry p.retry_error_callback m w w' (pred p.stop_after_attempt) x e r;
  tries_again = λ A p m w w' x n e r s.
      attempts_again p.retry p.retry_error_callback m w w' p.stop_after_attempt n x e r s;
  calls_back = λ A p m w w' x f e r s c.
      attempts_last p.retry p.retry_error_callback m w w' p.stop_after_attempt x e r s ∙ rw c;
  reraises = λ A p m w w' x e r s c z.
      attempts_last p.retry p.retry_error_callback m w w' p.stop_after_attempt x e r s ∙ rw c;
}
