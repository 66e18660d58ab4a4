-- ===== src/Auth/Service.antt =====
-- The token of a service: `verify_service_token` of app/auth.py and what it calls, over the DAOs.
use va_enp_api.Prelude.{
  String, ◌≡◌, Bool, true, false, Option, none, some, List, [], ◌∷◌, if◌then◌else◌, inl, inr, arith,
}
use va_enp_api.Prelude.Int.{ℤ, ◌-ℤ◌, ltb_ℤ}
use va_enp_api.Constants.{
  wrong_type, no_service, archived_service, not_found, no_keys, key_revoked, system_clock,
}
use va_enp_api.Effects.{
  Exception, non_retryable_error, http_exception, token_expired_error, token_algorithm_error,
  token_decode_error, token_issuer_error, token_issued_at_error, type_error, Result, ok, err, Exec,
  pure, raise, ◌>>=◌, ◌>>◌, catch, is_app_error, Exec-cases,
}
use va_enp_api.Retry.{Tenacity}
use va_enp_api.Cache.{AlruCache}
use va_enp_api.Dao.Rows.{ServiceRow, DateTime, ApiKeyRow, Database}
use va_enp_api.Dao.Lookups.{get_service, get_service_api_keys}
use va_enp_api.Auth.Secrets.{ApiKeyRecord, from_row, secret}
use va_enp_api.Auth.Tokens.{Settings, Jwt, decode_jwt_token}

-- `starlette_context.context`: what the checks of a request leave for its handler.
pub record Context : Type 0 where
  pub request_id : Option String
  pub api_key_id : Option String
  pub service_id : Option String

-- The state in which a request is served: its own context, and everything outside.
pub record State (W : Type 0) : Type 0 where
  pub context : Context
  pub outside : W

-- An action on the outside, during a request.
abbrev pub on_outside : {W A : Type 0} → Exec W Exception A → Exec (State W) Exception A
on_outside m s = let (r, w) = m s.outside in (r, record s { outside = w })

pub on_outside-ok :
    {W A : Type 0} (m : Exec W Exception A) (s : State W) {a : A} {s' : State W}
    → on_outside m s ≡ (ok a, s')
    → (w : W) × (m s.outside ≡ (ok a, w)) × (s' ≡ record s { outside = w })
on_outside-ok m s h = elim (Exec-cases m s.outside) [
  | inl (b, w, e) ↦ (w, ground arith, ground arith)
  | inr (x, w, e) ↦ absurd (ground arith)
]

-- `context[…] = …`
abbrev pub set_request_id : {W : Type 0} → String → Exec (State W) Exception (Unit {0})
set_request_id {W} id s =
    (ok tt, let c = s.context in record s { context = record c { request_id = some id } })

abbrev pub set_authenticated : {W : Type 0} → String → String → State W → State W
set_authenticated api_key_id service_id s =
    let c = s.context in
    record s { context = record c { api_key_id = some api_key_id; service_id = some service_id } }

-- `aware < now`; a naive `datetime` on the left is a `TypeError`.
abbrev pub is_before : DateTime → ℤ → Result Exception Bool
is_before d now = elim d.tzinfo [
  | none ↦ err type_error
  | some offset ↦ ok (ltb_ℤ (d.reading -ℤ offset) now)
]

abbrev pub forbidden : String → Exception
forbidden detail = http_exception 403 detail

-- What the authentication uses of other parts and libraries.
pub record Collaborators (W : Type 0) : Type 1 where
  pub settings : Settings
  pub jwt : Jwt W
  pub b64decode : String → Option String
  -- `UUID(text)` in its canonical spelling, or `ValueError`.
  pub uuid : String → Option String
  pub uuid4 : W → String × W
  pub tenacity : Tenacity W
  pub db : Database W
  pub services : AlruCache W String (String × String)
  pub api_keys : AlruCache W String (List ApiKeyRow)

-- `_verify_service_token`
abbrev pub after_decoding : Result Exception Bool → Result Exception Bool
after_decoding (ok verified) = ok verified
after_decoding (err token_expired_error) = err (forbidden system_clock)
after_decoding (err (non_retryable_error _)) = ok false
after_decoding (err token_algorithm_error) = ok false
after_decoding (err token_decode_error) = ok false
after_decoding (err token_issuer_error) = ok false
after_decoding (err token_issued_at_error) = ok false
after_decoding (err x) = err x

-- `except (NonRetryableError, RetryableError): raise HTTPException(403, detail)`
abbrev pub app_error_to : String → Exception → Exception
app_error_to detail x = if is_app_error x then forbidden detail else x

abbrev pub check_service : {W : Type 0} → ServiceRow → Exec W Exception (String × String)
check_service row =
    if row.active then pure (row.id, row.name) else raise (forbidden archived_service)

-- A row has columns, so `any` tests whether there is one.
abbrev pub check_api_keys : {W : Type 0} → List ApiKeyRow → Exec W Exception (List ApiKeyRow)
check_api_keys [] = raise (forbidden no_keys)
check_api_keys (row ∷ rows) = pure (row ∷ rows)

module _ {W : Type 0} (c : Collaborators W) where
  unfoldable pub verify_key : String → ApiKeyRecord → W → Result Exception Bool
  unfolding secret decode_jwt_token
  verify_key token api_key w = after_decoding (elim (secret c.b64decode api_key) [
    | err x ↦ err x
    | ok key ↦ decode_jwt_token c.settings c.jwt token key w
  ])

  -- `_validate_service_api_key`, which otherwise only logs the age of the key.
  unfoldable pub validate_service_api_key : ApiKeyRecord → W → Result Exception (Unit {0})
  validate_service_api_key api_key w =
      if api_key.revoked then err (forbidden key_revoked) else elim api_key.expiry_date [
        | none ↦ ok tt
        | some expiry ↦ elim (is_before expiry (c.jwt.utc_now w)) [ err x ↦ err x | ok _ ↦ ok tt ]
      ]

  -- The body of `get_active_service_for_issuer`, and the cached function.
  unfoldable pub find_active_service : String → Exec W Exception (String × String)
  find_active_service issuer = elim (c.uuid issuer) [
    | none ↦ raise (forbidden wrong_type)
    | some service_id ↦ do
      service ←
          catch (get_service c.tenacity c.db service_id) (λ x. raise (app_error_to no_service x))
      check_service service
  ]

  unfoldable pub get_active_service_for_issuer : String → Exec W Exception (String × String)
  get_active_service_for_issuer = c.services.call find_active_service

  -- The body of `_get_service_api_keys`, and the cached function.
  unfoldable pub find_api_keys : String → Exec W Exception (List ApiKeyRow)
  find_api_keys service_id = do
    rows ←
        catch (get_service_api_keys c.tenacity c.db service_id)
          (λ x. raise (app_error_to no_keys x))
    check_api_keys rows

  unfoldable pub service_api_keys : String → Exec W Exception (List ApiKeyRow)
  service_api_keys = c.api_keys.call find_api_keys

  -- The loop of `verify_service_token` over the keys.
  unfoldable pub try_keys : String → String → List ApiKeyRow → Exec (State W) Exception (Unit {0})
  try_keys token service_id [] s = (err (forbidden not_found), s)
  try_keys token service_id (row ∷ rows) s = elim (verify_key token (from_row row) s.outside) [
    | err x ↦ (err x, s)
    | ok false ↦ try_keys token service_id rows s
    | ok true ↦ elim (validate_service_api_key (from_row row) s.outside) [
      | err x ↦ (err x, s)
      | ok _ ↦ (ok tt, set_authenticated (from_row row).id service_id s)
    ]
  ]

  unfoldable pub verify_service_token : String → String → Exec (State W) Exception (Unit {0})
  unfolding get_active_service_for_issuer service_api_keys
  verify_service_token issuer token = do
    request_id ← on_outside (λ w. let (id, w') = c.uuid4 w in (ok id, w'))
    set_request_id request_id
    service ← on_outside (get_active_service_for_issuer issuer)
    rows ← on_outside (service_api_keys service.0)
    try_keys token service.0 rows
