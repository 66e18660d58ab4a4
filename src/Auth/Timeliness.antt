-- ===== src/Auth/Timeliness.antt =====
-- When `validate_jwt_token` and `decode_jwt_token` of app/auth.py accept a token.
use va_enp_api.Prelude.{String, ◌≡◌, ◌≢◌, ◌↔◌, inl, inr, true, false, some, arith, Option-cases}
use va_enp_api.Prelude.Int.{ℤ, ◌+ℤ◌, ◌≤ℤ◌}
use va_enp_api.Effects.{ok, Result-cases}
use va_enp_api.Auth.Tokens.{
  Claim, Payload, Settings, Jwt, int_of_claim, check_issued_at, validate_jwt_token,
  decode_jwt_token, access_token_leeway_seconds,
}

module _ {W : Type 0} (settings : Settings) (jwt : Jwt W) where
  -- A token's payload names an issuer, and the time at which it was issued is the clock's time, give
  -- or take the expiry period, both ends included.
  pub record IsTimely (p : Payload) (w : W) : Type 0 where
    pub issuer : Claim
    pub issued_at : Claim
    pub iat : ℤ
    pub has_issuer : p.iss ≡ some issuer
    pub has_issued_at : p.iat ≡ some issued_at
    pub reads : int_of_claim settings jwt issued_at ≡ ok iat
    pub not_old : jwt.time w ≤ℤ iat +ℤ settings.access_token_expire_seconds
    pub not_early : iat ≤ℤ jwt.time w +ℤ settings.access_token_expire_seconds

  check_issued_at-ok_iff :
      (now iat : ℤ)
      → (check_issued_at settings jwt now iat ≡ ok true) ↔ (
          (now ≤ℤ iat +ℤ settings.access_token_expire_seconds)
          × (iat ≤ℤ now +ℤ settings.access_token_expire_seconds))
  unfolding check_issued_at
  check_issued_at-ok_iff now iat = ground arith

  validate-IsTimely :
      (p : Payload) (w : W) → validate_jwt_token settings jwt p w ≡ ok true → IsTimely p w
  unfolding validate_jwt_token
  validate-IsTimely p w h = elim (Option-cases p.iss) [
    | inl missing ↦ absurd (ground arith)
    | inr (issuer, has_issuer) ↦ elim (Option-cases p.iat) [
      | inl missing ↦ absurd (ground arith)
      | inr (claim, has_issued_at) ↦ elim (Result-cases (int_of_claim settings jwt claim)) [
        | inr (x, fails) ↦ absurd (ground arith)
        | inl (iat, reads) ↦
            let bounds = (check_issued_at-ok_iff (jwt.time w) iat).0 (ground arith) in
            record {
              issuer = issuer;
              issued_at = claim;
              iat = iat;
              has_issuer = has_issuer;
              has_issued_at = has_issued_at;
              reads = reads;
              not_old = bounds.0;
              not_early = bounds.1;
            }
      ]
    ]
  ]

  IsTimely-validate :
      (p : Payload) (w : W) → IsTimely p w → validate_jwt_token settings jwt p w ≡ ok true
  unfolding validate_jwt_token
  IsTimely-validate p w h =
      let bounds = (check_issued_at-ok_iff (jwt.time w) h.iat).1 (h.not_old, h.not_early) in
      rw (h.has_issuer, h.has_issued_at, h.reads) bounds

  -- A payload is accepted exactly when it names an issuer and an `iat` that reads as an integer at
  -- most the expiry period away from the clock, before or after it.
  pub validate_jwt_token-ok_iff :
      (p : Payload) (w : W) → (validate_jwt_token settings jwt p w ≡ ok true) ↔ IsTimely p w
  validate_jwt_token-ok_iff p w = (validate-IsTimely p w, IsTimely-validate p w)

  -- A payload that is checked is accepted or raises: the check never returns `False`.
  pub validate_jwt_token-ne-false :
      (p : Payload) (w : W) → validate_jwt_token settings jwt p w ≢ ok false
  unfolding validate_jwt_token check_issued_at
  validate_jwt_token-ne-false p w = ground arith

  -- A token that decodes was signed with the secret, as PyJWT checks it with the program's leeway,
  -- and its payload is timely.
  pub decode_jwt_token-ok :
      (token secret : String) (w : W)
      → decode_jwt_token settings jwt token secret w ≡ ok true
      → (p : Payload) × (jwt.decode token secret settings.algorithm access_token_leeway_seconds w
          ≡ ok p)
        × IsTimely p w
  unfolding decode_jwt_token
  decode_jwt_token-ok token secret w h =
      elim (Result-cases
        (jwt.decode token secret settings.algorithm access_token_leeway_seconds w)) [
          | inl (p, decoded) ↦ (p, decoded, validate-IsTimely p w (ground arith))
          | inr (e, failed) ↦ absurd (ground arith)
        ]
