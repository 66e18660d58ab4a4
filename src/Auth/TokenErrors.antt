-- ===== src/Auth/TokenErrors.antt =====
-- The classes of token errors of app/auth.py, their messages, and the `except` clauses that catch them
-- by class.
use Prim.Native.String.{String}
use va_enp_api.Prelude.{
  ℕ, ◌≡◌, refl, Bool, true, false, ◌||◌, ◌==◌, Option, none, some, List, [], ◌∷◌, f_string, str_eq,
  if◌then◌else◌,
}
use va_enp_api.Constants.{no_iss, not_valid, system_clock}
use va_enp_api.Effects.{Exception, Result, ok, err}
use va_enp_api.Auth.Tokens.{Settings, Jwt, issuer_error}
use va_enp_api.Auth.Service.{forbidden, after_decoding}

pub data TokenErrorClass : Type 0 where
  token_error token_expired_error token_algorithm_error : TokenErrorClass
  token_decode_error token_issuer_error token_issued_at_error : TokenErrorClass

-- A class and those above it.
abbrev pub ancestry : TokenErrorClass → List TokenErrorClass
ancestry token_error = token_error ∷ []
ancestry token_expired_error = token_expired_error ∷ token_error ∷ []
ancestry token_algorithm_error = token_algorithm_error ∷ token_error ∷ []
ancestry token_decode_error = token_decode_error ∷ token_error ∷ []
ancestry token_issuer_error = token_issuer_error ∷ token_decode_error ∷ token_error ∷ []
ancestry token_issued_at_error = token_issued_at_error ∷ token_decode_error ∷ token_error ∷ []

-- `message if message else default`
abbrev pub or_default : Option String → String → String
or_default none default = default
or_default (some message) default = if str_eq message "" then default else message

-- The message of a new error, of what its constructor is given.
unfoldable pub token_error_message : (algorithm : String) → TokenErrorClass → Option String → String
token_error_message algorithm token_error given = or_default given "Invalid token"
token_error_message algorithm token_expired_error given = or_default given "Invalid token"
token_error_message algorithm token_algorithm_error given =
    f_string ("Invalid token: algorithm used is not " ∷ algorithm ∷ [])
token_error_message algorithm token_decode_error given = or_default given "Invalid token: signature"
token_error_message algorithm token_issuer_error given = "Invalid token: iss field not provided"
token_error_message algorithm token_issued_at_error given = "Invalid token: iat field not provided"

-- The class of an exception that is a token error.
abbrev class_of : Exception → Option TokenErrorClass
class_of Exception.token_expired_error = some token_expired_error
class_of Exception.token_algorithm_error = some token_algorithm_error
class_of Exception.token_decode_error = some token_decode_error
class_of Exception.token_issuer_error = some token_issuer_error
class_of Exception.token_issued_at_error = some token_issued_at_error
class_of x = none

abbrev place : TokenErrorClass → ℕ
place token_error = 0
place token_expired_error = 1
place token_algorithm_error = 2
place token_decode_error = 3
place token_issuer_error = 4
place token_issued_at_error = 5

abbrev has_class : TokenErrorClass → List TokenErrorClass → Bool
has_class class [] = false
has_class class (c ∷ cs) = place c == place class || has_class class cs

-- What an `except` names.
pub data Named : Type 0 where
  of_class : TokenErrorClass → Named
  non_retryable : Named

abbrev catches : Exception → Named → Bool
catches x (of_class class) = elim (class_of x) [
  | none ↦ false
  | some c ↦ has_class class (ancestry c)
]
catches (Exception.non_retryable_error _) non_retryable = true
catches x non_retryable = false

abbrev catches_any : Exception → List Named → Bool
catches_any x [] = false
catches_any x (n ∷ ns) = catches x n || catches_any x ns

-- The first clause that names the exception; without one it goes on.
abbrev pub handled :
    {A : Type 0} → List (List Named × Result Exception A) → Exception → Result Exception A
handled [] x = err x
handled ((names, outcome) ∷ clauses) x =
    let next = handled clauses x in if catches_any x names then outcome else next

-- The clauses of `get_token_issuer`.
abbrev pub issuer_clauses : List (List Named × Result Exception String)
issuer_clauses =
    (of_class token_issuer_error ∷ [], err (forbidden no_iss))
    ∷ (of_class token_decode_error ∷ [], err (forbidden not_valid))
    ∷ []

-- The clauses of `_verify_service_token`.
abbrev pub decoding_clauses : List (List Named × Result Exception Bool)
decoding_clauses =
    (of_class token_expired_error ∷ [], err (forbidden system_clock))
    ∷ (non_retryable ∷ of_class token_error ∷ [], ok false)
    ∷ []

module _ {W : Type 0} (settings : Settings) (jwt : Jwt W) where
  -- The two places that catch token errors do with each exception what the first of their `except`
  -- clauses does whose class is above that of the exception, and let any other pass.
  pub handled-clauses :
      (x : Exception)
      → (handled issuer_clauses x ≡ err (issuer_error settings jwt x))
        × (handled decoding_clauses x ≡ after_decoding (err x))
  handled-clauses (Exception.retryable_error a) = (refl, refl)
  handled-clauses (Exception.non_retryable_error a) = (refl, refl)
  handled-clauses (Exception.http_exception a b) = (refl, refl)
  handled-clauses Exception.token_expired_error = (refl, refl)
  handled-clauses Exception.token_algorithm_error = (refl, refl)
  handled-clauses Exception.token_decode_error = (refl, refl)
  handled-clauses Exception.token_issuer_error = (refl, refl)
  handled-clauses Exception.token_issued_at_error = (refl, refl)
  handled-clauses (Exception.value_error a) = (refl, refl)
  handled-clauses (Exception.not_implemented_error a) = (refl, refl)
  handled-clauses Exception.attribute_error = (refl, refl)
  handled-clauses Exception.type_error = (refl, refl)
  handled-clauses Exception.index_error = (refl, refl)
  handled-clauses (Exception.key_error a) = (refl, refl)
  handled-clauses (Exception.other_error a) = (refl, refl)
