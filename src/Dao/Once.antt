-- ===== src/Dao/Once.antt =====
-- What the public methods of app/legacy/dao come to, whichever statement they execute.
use va_enp_api.Prelude.{◌≡◌, ◌↔◌, arith, inl, inr}
use va_enp_api.Effects.{Exception, Result, ok, err, Exec, Exec-cases}
use va_enp_api.Retry.{Tenacity, db_retry}
use va_enp_api.Retry.Outcomes.{db_retry-once}
use va_enp_api.Dao.Rows.{DbFault, statement, as_non_retryable, public}

-- The outcome of a statement as a public method gives it on.
abbrev pub reported : {A : Type 0} → (DbFault → Exception) → Result DbFault A → Result Exception A
reported on_fault (ok a) = ok a
reported on_fault (err f) = err (as_non_retryable (on_fault f))

module _ {W A : Type 0} (t : Tenacity W) (run : Exec W DbFault A)
    (on_fault : DbFault → Exception) where
  -- The statement is executed once.
  pub public-reported :
      (w : W)
      → public (db_retry t A (statement run on_fault)) w ≡ (reported on_fault (run w).0, (run w).1)
  public-reported w =
      let once = db_retry-once t (statement run on_fault) w in
      elim (Exec-cases run w) [ inl (a, w', e) ↦ ground arith | inr (f, w', e) ↦ ground arith ]

  pub public-ok :
      (w : W) {w' : W} {a : A}
      → public (db_retry t A (statement run on_fault)) w ≡ (ok a, w')
      → run w ≡ (ok a, w')
  public-ok w h =
      let all = public-reported w in
      elim (Exec-cases run w) [
        | inl (a, w', e) ↦ ground arith
        | inr (f, w', e) ↦ absurd (ground arith)
      ]

  pub public-err :
      (w w' : W) (f : DbFault)
      → run w ≡ (err f, w')
      → public (db_retry t A (statement run on_fault)) w ≡ (err (as_non_retryable (on_fault f)), w')
  public-err w w' f e = let all = public-reported w in ground arith

  pub public-ok_iff :
      (w w' : W) (a : A)
      → (public (db_retry t A (statement run on_fault)) w ≡ (ok a, w')) ↔ (run w ≡ (ok a, w'))
  public-ok_iff w w' a = (public-ok w, λ e. let all = public-reported w in ground arith)
