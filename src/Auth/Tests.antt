-- ===== src/Auth/Tests.antt =====
-- Runs of the authentication over collaborators in memory.
use va_enp_api.Prelude.{◌≡◌, ◌↔◌, refl, true, some, [], ◌∷◌}
use va_enp_api.Prelude.Int.{◌+ℤ◌}
use va_enp_api.Effects.{ok, err}
use va_enp_api.Retry.{db_retry}
use va_enp_api.Dao.Rows.{operational_error, timeout_error, interface_error}
use va_enp_api.Dao.Lookups.{get_service, get_service_api_keys}
use va_enp_api.Constants.{no_service}
use va_enp_api.Auth.Secrets.{padded, first_part, strip_quotes, from_row}
use va_enp_api.Auth.Tokens.{validate_jwt_token, get_token_issuer}
use va_enp_api.Auth.Service.{
  verify_key, validate_service_api_key, try_keys, verify_service_token, find_active_service,
  find_api_keys, set_authenticated, forbidden,
}
use va_enp_api.Auth.Bearer.{jwt_bearer}
use va_enp_api.Auth.Timeliness.{IsTimely, validate_jwt_token-ok_iff}
use va_enp_api.Auth.Keys.{IsMatched, try_keys-ok_iff}
use va_enp_api.Auth.Authentication.{keyed_state, verify_service_token_unavailable}
use va_enp_api.Auth.Accepted.{HasToken, jwt_bearer-ok_iff}
use va_enp_api.Auth.Samples.{
  claims, settings, jwt, collaborators, old_key, other_key, clinic_tables, down_tables, fresh,
}

strip_example : strip_quotes "\"\"ab\"c\"" ≡ "ab\"c"
unfolding strip_quotes
strip_example = refl

padded_example : padded (first_part "abcde.fg.h") ≡ "abcde==="
unfolding first_part padded
padded_example = refl

validate_jwt_token-ok_iff_example :
    (validate_jwt_token settings jwt claims clinic_tables ≡ ok true)
    ↔ IsTimely settings jwt claims clinic_tables
validate_jwt_token-ok_iff_example = validate_jwt_token-ok_iff settings jwt claims clinic_tables

try_keys-ok_iff_example :
    (try_keys collaborators "abcd" "s1" (other_key ∷ old_key ∷ []) (fresh clinic_tables)
      ≡ (ok tt, set_authenticated "k1" "s1" (fresh clinic_tables)))
    ↔ IsMatched collaborators "abcd" "s1"
        (other_key ∷ old_key ∷ [])
        (fresh clinic_tables)
        (set_authenticated "k1" "s1" (fresh clinic_tables))
try_keys-ok_iff_example =
    try_keys-ok_iff collaborators "abcd" "s1" (fresh clinic_tables)
      (set_authenticated "k1" "s1" (fresh clinic_tables)) (other_key ∷ old_key ∷ [])

-- The old key is accepted, though its expiry date has passed.
old_key_accepted : jwt_bearer collaborators (ok (some "abcd")) (fresh clinic_tables) ≡ (
  ok tt,
  set_authenticated "k1" "s1" (keyed_state collaborators (fresh clinic_tables) "n1" clinic_tables),
)
unfolding jwt_bearer get_token_issuer verify_service_token find_active_service find_api_keys
    get_service get_service_api_keys db_retry try_keys verify_key validate_service_api_key from_row
    ◌+ℤ◌
old_key_accepted = refl

jwt_bearer-ok_iff_example :
    (jwt_bearer collaborators (ok (some "abcd")) (fresh clinic_tables) ≡ (
      ok tt,
      set_authenticated "k1" "s1"
          (keyed_state collaborators (fresh clinic_tables) "n1" clinic_tables),
    ))
    ↔ HasToken collaborators (ok (some "abcd")) (fresh clinic_tables) (
        set_authenticated "k1" "s1"
          (keyed_state collaborators (fresh clinic_tables) "n1" clinic_tables))
jwt_bearer-ok_iff_example =
    jwt_bearer-ok_iff collaborators (ok (some "abcd")) (fresh clinic_tables) (
      set_authenticated "k1" "s1"
        (keyed_state collaborators (fresh clinic_tables) "n1" clinic_tables))

verify_service_token_unavailable_example :
    verify_service_token collaborators "s1" "abcd" (fresh down_tables) ≡ (
      err (forbidden no_service),
      keyed_state collaborators
          (fresh down_tables)
          "n1"
          (record clinic_tables { faults = timeout_error ∷ interface_error ∷ [] }),
    )
verify_service_token_unavailable_example =
    verify_service_token_unavailable collaborators "s1" "abcd" "s1" (fresh down_tables)
      (record clinic_tables { faults = timeout_error ∷ interface_error ∷ [] }) operational_error
      refl refl refl refl
