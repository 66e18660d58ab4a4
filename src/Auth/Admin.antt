-- ===== src/Auth/Admin.antt =====
-- Which requests pass `JWTBearerAdmin` of app/auth.py.
use va_enp_api.Prelude.{String, ◌≡◌, ◌↔◌, refl, inl, inr, none, some, arith, Bool-cases}
use va_enp_api.Prelude.Int.{pos}
use va_enp_api.Effects.{ok, err, Result-cases}
use va_enp_api.Auth.Tokens.{Payload, is_pyjwt_error, verify_admin_token}
use va_enp_api.Auth.Service.{Collaborators}
use va_enp_api.Auth.Bearer.{Credentials, jwt_bearer_admin}

module _ {W : Type 0} (c : Collaborators W) where
  -- The header of the request holds a token that the administrator's secret has signed.
  pub record IsAdmin (credentials : Credentials) (w : W) : Type 0 where
    pub token : String
    pub payload : Payload
    pub given : credentials ≡ ok (some token)
    pub signed :
        c.jwt.decode token c.settings.admin_secret_key c.settings.algorithm (pos 0) w ≡ ok payload

  bearer-IsAdmin :
      (credentials : Credentials) (w w' : W)
      → jwt_bearer_admin c credentials w ≡ (ok tt, w')
      → IsAdmin credentials w × (w ≡ w')
  unfolding jwt_bearer_admin verify_admin_token
  bearer-IsAdmin (err x) w w' h = absurd (ground arith)
  bearer-IsAdmin (ok none) w w' h = absurd (ground arith)
  bearer-IsAdmin (ok (some token)) w w' h =
      elim (Result-cases
        (c.jwt.decode token c.settings.admin_secret_key c.settings.algorithm (pos 0) w)) [
          | inl (payload, e) ↦
              (record { token = token; payload = payload; given = refl; signed = e }, ground arith)
          | inr (x, e) ↦ elim (Bool-cases (is_pyjwt_error x)) [
            | inl p ↦ absurd (ground arith)
            | inr p ↦ absurd (ground arith)
          ]
        ]

  IsAdmin-bearer :
      (credentials : Credentials) (w w' : W)
      → IsAdmin credentials w
      → w ≡ w'
      → jwt_bearer_admin c credentials w ≡ (ok tt, w')
  unfolding jwt_bearer_admin verify_admin_token
  IsAdmin-bearer credentials w w' h e =
      let given = h.given in let signed = h.signed in rw (given, signed) (ground arith)

  -- `JWTBearerAdmin` lets a request pass if and only if its header holds a token that decodes with
  -- the administrator's secret, and changes nothing.
  pub jwt_bearer_admin-ok_iff :
      (credentials : Credentials) (w w' : W)
      → (jwt_bearer_admin c credentials w ≡ (ok tt, w')) ↔ (IsAdmin credentials w × (w ≡ w'))
  jwt_bearer_admin-ok_iff credentials w w' =
      (bearer-IsAdmin credentials w w', λ h. IsAdmin-bearer credentials w w' h.0 h.1)
