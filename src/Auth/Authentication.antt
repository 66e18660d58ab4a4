-- ===== src/Auth/Authentication.antt =====
-- What an authenticated request has passed, and what becomes of one when the database does not
-- answer: `verify_service_token` and `JWTBearer` of app/auth.py.
use va_enp_api.Prelude.{
  String, ◌≡◌, refl, inl, inr, true, none, some, List, arith, Option-cases, Bool-cases,
}
use va_enp_api.Effects.{ok, err, raise, catch, >>=-eq-ok, catch-raise-ok, Exec-cases, Result-cases}
use va_enp_api.Constants.{no_service}
use va_enp_api.Cache.{Obtained, call-Obtained}
use va_enp_api.Dao.Rows.{DbFault, ServiceRow, ApiKeyRow}
use va_enp_api.Dao.Lookups.{get_service}
use va_enp_api.Dao.Laws.{get_service-ok, get_service_failed, is_sqlalchemy}
use va_enp_api.Auth.Tokens.{get_token_issuer}
use va_enp_api.Auth.Service.{
  State, Collaborators, forbidden, app_error_to, check_service, find_active_service, find_api_keys,
  verify_service_token,
}
use va_enp_api.Auth.Keys.{IsMatched, try_keys-ok_iff}
use va_enp_api.Auth.Bearer.{Credentials, jwt_bearer}

module _ {W : Type 0} (c : Collaborators W) where
  -- The service that an issuer stands for: its row was read from the database, and is active.
  pub record IsActive (issuer : String) (w w' : W) (service : String × String) : Type 0 where
    pub service_id : String
    pub row : ServiceRow
    pub parses : c.uuid issuer ≡ some service_id
    pub selected : c.db.select_service service_id w ≡ (ok row, w')
    pub active : row.active ≡ true
    pub named : service ≡ (row.id, row.name)

  looked_up-IsActive :
      (issuer service_id : String) (w w' : W) (row : ServiceRow) (service : String × String)
      (w₁ : W)
      → c.uuid issuer ≡ some service_id
      → get_service c.tenacity c.db service_id w ≡ (ok row, w₁)
      → check_service row w₁ ≡ (ok service, w')
      → IsActive issuer w w' service
  looked_up-IsActive issuer service_id w w' row service w₁ parses e h =
      elim (Bool-cases row.active) [
        | inl active ↦
            let same : w₁ ≡ w' = ground arith in
            let selected = get_service-ok c.tenacity c.db service_id w w₁ row e in
            record {
              service_id = service_id;
              row = row;
              parses = parses;
              selected = rw (← same) selected;
              active = active;
              named = ground arith;
            }
        | inr archived ↦ absurd (ground arith)
      ]

  -- A service that a lookup returns, when the cache holds none for the issuer, was read from the
  -- database under the issuer's UUID and is active.
  pub find_active_service-IsActive :
      (issuer : String) (w w' : W) (service : String × String)
      → find_active_service c issuer w ≡ (ok service, w')
      → IsActive issuer w w' service
  unfolding find_active_service
  find_active_service-IsActive issuer w w' service h = elim (Option-cases (c.uuid issuer)) [
    | inl bad ↦ absurd (ground arith)
    | inr (service_id, parses) ↦
        let look =
          catch (get_service c.tenacity c.db service_id) (λ x. raise (app_error_to no_service x)) in
        let (row, w₁, caught, checked) =
          >>=-eq-ok look check_service w (rw (parses, find_active_service) at h) in
        looked_up-IsActive issuer service_id w w' row service w₁ parses
          (catch-raise-ok (get_service c.tenacity c.db service_id) (app_error_to no_service) w
            caught)
          checked
  ]

  -- The state when the keys are tried: the request has its number.
  abbrev pub keyed_state : State W → String → W → State W
  keyed_state s request_id w =
      let context = s.context in
      record s { context = record context { request_id = some request_id }; outside = w }

  -- A request whose token was accepted: its issuer's service and that service's keys came from the
  -- caches or from lookups of this request, and the loop over those keys matched one.
  pub record IsAuthenticated (issuer token : String) (s s' : State W) : Type 0 where
    pub request_id : String
    pub w₁ : W
    pub numbered : c.uuid4 s.outside ≡ (request_id, w₁)
    pub service : String × String
    pub w₂ : W
    pub served : Obtained c.services (find_active_service c) issuer w₁ service w₂
    pub rows : List ApiKeyRow
    pub w₃ : W
    pub keyed : Obtained c.api_keys (find_api_keys c) service.0 w₂ rows w₃
    pub matched : IsMatched c token service.0 rows (keyed_state s request_id w₃) s'

  -- `verify_service_token` returns only for a token that a key of the issuer's service verifies.
  verify_service_token-IsAuthenticated :
      (issuer token : String) (s s' : State W)
      → verify_service_token c issuer token s ≡ (ok tt, s')
      → IsAuthenticated issuer token s s'
  unfolding verify_service_token
  verify_service_token-IsAuthenticated issuer token s s' h =
      let w₁ = (c.uuid4 s.outside).1 in
      elim (Exec-cases (c.services.call (find_active_service c) issuer) w₁) [
        | inr (x, w₂, e) ↦ absurd (ground arith)
        | inl (service, w₂, e₂) ↦
            elim (Exec-cases (c.api_keys.call (find_api_keys c) service.0) w₂) [
              | inr (x, w₃, e) ↦ absurd (ground arith)
              | inl (rows, w₃, e₃) ↦
                  let s₃ : State W = keyed_state s (c.uuid4 s.outside).0 w₃ in
                  record {
                    request_id = (c.uuid4 s.outside).0;
                    w₁ = w₁;
                    numbered = refl;
                    service = service;
                    w₂ = w₂;
                    served =
                        call-Obtained c.services (find_active_service c) issuer w₁ service w₂ e₂;
                    rows = rows;
                    w₃ = w₃;
                    keyed = call-Obtained c.api_keys (find_api_keys c) service.0 w₂ rows w₃ e₃;
                    matched = (try_keys-ok_iff c token service.0 s₃ s' rows).0 (ground arith);
                  }
            ]
      ]

  -- A request that `JWTBearer` lets through carried a token whose issuer could be read, and was
  -- authenticated with it.
  pub jwt_bearer-IsAuthenticated :
      (credentials : Credentials) (s s' : State W)
      → jwt_bearer c credentials s ≡ (ok tt, s')
      → (token issuer : String) × (credentials ≡ ok (some token))
        × (get_token_issuer c.settings c.jwt token ≡ ok issuer)
        × IsAuthenticated issuer token s s'
  unfolding jwt_bearer
  jwt_bearer-IsAuthenticated (err x) s s' h = absurd (ground arith)
  jwt_bearer-IsAuthenticated (ok none) s s' h = absurd (ground arith)
  jwt_bearer-IsAuthenticated (ok (some token)) s s' h =
      elim (Result-cases (get_token_issuer c.settings c.jwt token)) [
        | inl (issuer, e) ↦ (
          token,
          issuer,
          refl,
          e,
          verify_service_token-IsAuthenticated issuer token s s' (ground arith),
        )
        | inr (x, e) ↦ absurd (ground arith)
      ]

  -- If the cache holds no service for the issuer and the statement that reads it ends in a fault of
  -- SQLAlchemy, then the request is refused with status 403 as if there were no such service, also
  -- if the fault is a transient one; the statement is executed once.
  pub verify_service_token_unavailable :
      (issuer token service_id : String) (s : State W) (w' : W) (f : DbFault)
      → c.uuid issuer ≡ some service_id
      → c.services.cached issuer (c.uuid4 s.outside).1 ≡ none
      → is_sqlalchemy f ≡ true
      → c.db.select_service service_id (c.uuid4 s.outside).1 ≡ (err f, w')
      → verify_service_token c issuer token s
        ≡ (err (forbidden no_service), keyed_state s (c.uuid4 s.outside).0 w')
  unfolding verify_service_token find_active_service
  verify_service_token_unavailable issuer token service_id s w' f parses miss known failed =
      let w₁ = (c.uuid4 s.outside).1 in
      let looked_up = get_service_failed c.tenacity c.db service_id w₁ w' f known failed in
      let body : find_active_service c issuer w₁ ≡ (err (forbidden no_service), w') =
        rw (parses, find_active_service) (ground arith) in
      let called =
        c.services.raises (find_active_service c) issuer w₁ w' (forbidden no_service) miss body in
      ground arith
