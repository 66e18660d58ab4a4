-- ===== src/Auth/Bearer.antt =====
-- The dependencies `JWTBearer` and `JWTBearerAdmin` of app/auth.py.
use va_enp_api.Prelude.{String, true, false, Option, none, some}
use va_enp_api.Constants.{no_credentials, not_valid}
use va_enp_api.Effects.{Exception, http_exception, Result, ok, err, Exec, raise, of_result, ◌>>=◌}
use va_enp_api.Auth.Tokens.{get_token_issuer, verify_admin_token}
use va_enp_api.Auth.Service.{State, Collaborators, verify_service_token}

-- What `HTTPBearer.__call__` makes of the request is a parameter: it raises, or gives the
-- credentials of the header.
abbrev pub Credentials : Type 0
Credentials = Result Exception (Option String)

module _ {W : Type 0} (c : Collaborators W) (credentials : Credentials) where
  unfoldable pub jwt_bearer : Exec (State W) Exception (Unit {0})
  jwt_bearer = do
    given ← of_result credentials
    elim given [
      | none ↦ raise (http_exception 401 no_credentials)
      | some token ↦ do
        issuer ← of_result (get_token_issuer c.settings c.jwt token)
        verify_service_token c issuer token
    ]

  unfoldable pub jwt_bearer_admin : Exec W Exception (Unit {0})
  jwt_bearer_admin = do
    given ← of_result credentials
    elim given [
      | none ↦ raise (http_exception 401 no_credentials)
      | some token ↦ λ w. elim (verify_admin_token c.settings c.jwt token w) [
        | err x ↦ (err x, w)
        | ok true ↦ (ok tt, w)
        | ok false ↦ (err (http_exception 403 not_valid), w)
      ]
    ]
