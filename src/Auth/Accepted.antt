-- ===== src/Auth/Accepted.antt =====
-- Which requests `JWTBearer` of app/auth.py lets through.
use va_enp_api.Prelude.{String, ◌≡◌, ◌↔◌, some, arith}
use va_enp_api.Effects.{ok}
use va_enp_api.Cache.{Obtained-call}
use va_enp_api.Auth.Tokens.{get_token_issuer}
use va_enp_api.Auth.Service.{
  State, Collaborators, find_active_service, find_api_keys, verify_service_token,
}
use va_enp_api.Auth.Keys.{try_keys-ok_iff}
use va_enp_api.Auth.Bearer.{Credentials, jwt_bearer}
use va_enp_api.Auth.Authentication.{IsAuthenticated, keyed_state, jwt_bearer-IsAuthenticated}

module _ {W : Type 0} (c : Collaborators W) where
  IsAuthenticated-verify :
      (issuer token : String) (s s' : State W)
      → IsAuthenticated c issuer token s s'
      → verify_service_token c issuer token s ≡ (ok tt, s')
  unfolding verify_service_token
  IsAuthenticated-verify issuer token s s' h =
      let numbered = h.numbered in
      let served = Obtained-call c.services (find_active_service c) issuer h.w₁ h.served in
      let keyed = Obtained-call c.api_keys (find_api_keys c) h.service.0 h.w₂ h.keyed in
      let tried =
        (try_keys-ok_iff c token h.service.0 (keyed_state c s h.request_id h.w₃) s' h.rows).1
          h.matched in
      ground arith

  -- What a request that is let through brought with it.
  pub record HasToken (credentials : Credentials) (s s' : State W) : Type 0 where
    pub token : String
    pub issuer : String
    pub given : credentials ≡ ok (some token)
    pub issued : get_token_issuer c.settings c.jwt token ≡ ok issuer
    pub authenticated : IsAuthenticated c issuer token s s'

  HasToken-bearer :
      (credentials : Credentials) (s s' : State W)
      → HasToken credentials s s'
      → jwt_bearer c credentials s ≡ (ok tt, s')
  unfolding jwt_bearer
  HasToken-bearer credentials s s' h =
      let given = h.given in
      let issued = h.issued in
      let verified = IsAuthenticated-verify h.issuer h.token s s' h.authenticated in
      rw (given, issued) verified

  -- `JWTBearer` lets a request pass if and only if its header holds a token that names an issuer, the
  -- service of that issuer and its keys came from the caches or from lookups that accepted them, and
  -- the first of the keys that does not reject the token verifies it and is not revoked; the context
  -- then has a new identifier for the request, the key and the service.
  pub jwt_bearer-ok_iff :
      (credentials : Credentials) (s s' : State W)
      → (jwt_bearer c credentials s ≡ (ok tt, s')) ↔ HasToken credentials s s'
  jwt_bearer-ok_iff credentials s s' = (
    λ h.
        let (token, issuer, given, issued, authenticated) =
          jwt_bearer-IsAuthenticated c credentials s s' h in
        record {
          token = token;
          issuer = issuer;
          given = given;
          issued = issued;
          authenticated = authenticated;
        },
    HasToken-bearer credentials s s',
  )
