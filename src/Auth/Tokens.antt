-- ===== src/Auth/Tokens.antt =====
-- The checks of one token: `decode_token`, `validate_jwt_token`, `decode_jwt_token`,
-- `get_token_issuer` and `verify_admin_token` of app/auth.py. PyJWT is a parameter.
use va_enp_api.Prelude.{String, Bool, true, false, Option, none, some, if◌then◌else◌}
use va_enp_api.Prelude.Int.{ℤ, pos, ◌+ℤ◌, ltb_ℤ}
use va_enp_api.Constants.{no_iss, not_valid}
use va_enp_api.Effects.{
  Exception, http_exception, token_expired_error, token_algorithm_error, token_decode_error,
  token_issuer_error, token_issued_at_error, value_error, type_error, other_error, Result, ok, err,
}

-- The exceptions of PyJWT by the classes that the code names. `decode_error` and
-- `invalid_signature` are `DecodeError`s; these and the next five are `InvalidTokenError`s, and
-- with `invalid_key` `PyJWTError`s.
pub data JwtError : Type 0 where
  decode_error invalid_signature : JwtError
  expired_signature immature_signature invalid_issued_at invalid_algorithm invalid_token : JwtError
  invalid_key : JwtError
  not_implemented : JwtError
  other_jwt_error : Exception → JwtError

-- A claim, as JSON: a number is an integer or a float, and a float is read by its truncation.
pub data Claim : Type 0 where
  integer float : ℤ → Claim
  nan infinity : Claim
  text : String → Claim
  boolean : Bool → Claim
  null container : Claim

-- The claims that the code reads; `none` is a missing key.
pub record Payload : Type 0 where
  pub iss : Option Claim
  pub iat : Option Claim

pub record Settings : Type 0 where
  pub admin_secret_key : String
  pub algorithm : String
  pub access_token_expire_seconds : ℤ

abbrev pub access_token_leeway_seconds : ℤ
access_token_leeway_seconds = pos 30

-- `jwt.decode` at a state of the world (it reads the clock), with the signature verified and
-- without, and what Python's `int` and `str` make of a text and of a claim.
pub record Jwt (W : Type 0) : Type 0 where
  pub decode : (token secret algorithm : String) (leeway : ℤ) → W → Result JwtError Payload
  pub decode_unverified : (token algorithm : String) → Result JwtError Payload
  pub int_of_text : String → Option ℤ
  pub str_of_claim : Claim → String
  -- `int(time.time())`
  pub time : W → ℤ
  -- `datetime.now(timezone.utc)`, on the scale of the expiry dates.
  pub utc_now : W → ℤ

-- An exception of PyJWT that no clause catches.
abbrev pub uncaught : JwtError → Exception
uncaught decode_error = other_error "DecodeError"
uncaught invalid_signature = other_error "InvalidSignatureError"
uncaught expired_signature = other_error "ExpiredSignatureError"
uncaught immature_signature = other_error "ImmatureSignatureError"
uncaught invalid_issued_at = other_error "InvalidIssuedAtError"
uncaught invalid_algorithm = other_error "InvalidAlgorithmError"
uncaught invalid_token = other_error "InvalidTokenError"
uncaught invalid_key = other_error "InvalidKeyError"
uncaught not_implemented = other_error "NotImplementedError"
uncaught (other_jwt_error x) = x

-- `except jwt.PyJWTError`
abbrev pub is_pyjwt_error : JwtError → Bool
is_pyjwt_error not_implemented = false
is_pyjwt_error (other_jwt_error _) = false
is_pyjwt_error _ = true

module _ {W : Type 0} (settings : Settings) (jwt : Jwt W) where
  -- `int(claim)`
  abbrev pub int_of_claim : Claim → Result Exception ℤ
  int_of_claim (integer i) = ok i
  int_of_claim (float i) = ok i
  int_of_claim nan = err (value_error "cannot convert float NaN to integer")
  int_of_claim infinity = err (other_error "OverflowError")
  int_of_claim (text s) = elim (jwt.int_of_text s) [
    | none ↦ err (value_error "invalid literal for int()")
    | some i ↦ ok i
  ]
  int_of_claim (boolean b) = ok (pos (if b then 1 else 0))
  int_of_claim null = err type_error
  int_of_claim container = err type_error

  -- The bounds of `iat` in `validate_jwt_token`.
  unfoldable pub check_issued_at : ℤ → ℤ → Result Exception Bool
  check_issued_at now iat =
      if ltb_ℤ (iat +ℤ settings.access_token_expire_seconds) now
      then err token_expired_error
      else if ltb_ℤ (now +ℤ settings.access_token_expire_seconds) iat
      then err token_expired_error
      else ok true

  unfoldable pub validate_jwt_token : Payload → W → Result Exception Bool
  unfolding check_issued_at
  validate_jwt_token decoded w = elim decoded.iss [
    | none ↦ err token_issuer_error
    | some _ ↦ elim decoded.iat [
      | none ↦ err token_issued_at_error
      | some claim ↦ elim (int_of_claim claim) [
        | err x ↦ err x
        | ok iat ↦ check_issued_at (jwt.time w) iat
      ]
    ]
  ]

  pub decode_token : String → Result JwtError Payload
  decode_token token = jwt.decode_unverified token settings.algorithm

  -- The `except` clauses of `decode_jwt_token`. The first one decodes the token again, for the
  -- exception's attribute.
  expired : String → Exception
  unfolding decode_token
  expired token = elim (decode_token token) [ err e ↦ uncaught e | ok _ ↦ token_expired_error ]

  translate_jwt_error : String → JwtError → Exception
  unfolding expired
  translate_jwt_error token invalid_issued_at = expired token
  translate_jwt_error token immature_signature = expired token
  translate_jwt_error token expired_signature = expired token
  translate_jwt_error token invalid_algorithm = token_algorithm_error
  translate_jwt_error token not_implemented = token_algorithm_error
  translate_jwt_error token decode_error = token_decode_error
  translate_jwt_error token invalid_signature = token_decode_error
  translate_jwt_error token invalid_token = token_decode_error
  translate_jwt_error token e = uncaught e

  unfoldable pub decode_jwt_token : String → String → W → Result Exception Bool
  unfolding translate_jwt_error validate_jwt_token
  decode_jwt_token token secret w =
      elim (jwt.decode token secret settings.algorithm access_token_leeway_seconds w) [
        | err e ↦ err (translate_jwt_error token e)
        | ok decoded ↦ validate_jwt_token decoded w
      ]

  -- `str(unverified.get('iss'))`
  abbrev str_of : Claim → String
  str_of (text s) = s
  str_of claim = jwt.str_of_claim claim

  -- `_get_token_issuer`
  token_issuer : String → Result Exception String
  unfolding decode_token
  token_issuer token = elim (decode_token token) [
    | err decode_error ↦ err token_decode_error
    | err invalid_signature ↦ err token_decode_error
    | err e ↦ err (uncaught e)
    | ok unverified ↦ elim unverified.iss [
      | none ↦ err token_issuer_error
      | some claim ↦ ok (str_of claim)
    ]
  ]

  -- The `except` clauses of `get_token_issuer`; the errors of an issuer and of a time are
  -- `TokenDecodeError`s.
  abbrev pub issuer_error : Exception → Exception
  issuer_error token_issuer_error = http_exception 403 no_iss
  issuer_error token_issued_at_error = http_exception 403 not_valid
  issuer_error token_decode_error = http_exception 403 not_valid
  issuer_error x = x

  unfoldable pub get_token_issuer : String → Result Exception String
  unfolding token_issuer
  get_token_issuer token = elim (token_issuer token) [
    | err x ↦ err (issuer_error x)
    | ok issuer ↦ ok issuer
  ]

  unfoldable pub verify_admin_token : String → W → Result Exception Bool
  verify_admin_token token w =
      elim (jwt.decode token settings.admin_secret_key settings.algorithm (pos 0) w) [
        | err e ↦ if is_pyjwt_error e then ok false else err (uncaught e)
        | ok _ ↦ ok true
      ]
