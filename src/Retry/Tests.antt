-- ===== src/Retry/Tests.antt =====
-- Runs of the retry decorators over a script of attempts.
use va_enp_api.Prelude.{ℕ, ◌≡◌, refl, Option, none, some, List, [], ◌∷◌}
use va_enp_api.Effects.{Exception, retryable_error, type_error, Result, ok, err, Exec}
use va_enp_api.Retry.{Tenacity, db_retry, client_retry}
use va_enp_api.Retry.Samples.{simple_tenacity}

-- The world is the list of what the coming attempts do.
abbrev Script : Type 0
Script = List (Result Exception (Option ℕ))

abbrev next_attempt : Exec Script Exception (Option ℕ)
next_attempt [] = (err type_error, [])
next_attempt (r ∷ rs) = (r, rs)

abbrev busy : Result Exception (Option ℕ)
busy = err (retryable_error (some "busy"))

abbrev tenacity : Tenacity Script
tenacity = simple_tenacity Script

not_tried_again :
    db_retry tenacity (Option ℕ) next_attempt (busy ∷ ok (some 7) ∷ [])
    ≡ (err (retryable_error (some "busy")), ok (some 7) ∷ [])
unfolding db_retry
not_tried_again = refl

third_attempt_returns :
    client_retry tenacity ℕ next_attempt (busy ∷ busy ∷ ok (some 7) ∷ busy ∷ [])
    ≡ (ok (some 7), busy ∷ [])
unfolding client_retry
third_attempt_returns = refl

five_attempts :
    client_retry tenacity ℕ next_attempt (busy ∷ busy ∷ busy ∷ busy ∷ busy ∷ ok none ∷ [])
    ≡ (ok none, ok none ∷ [])
unfolding client_retry
five_attempts = refl
