-- ===== src/Dao/Serializers.antt =====
-- `Serializer` of app/legacy/dao/utils.py, which the notifications' personalisation goes through.
use va_enp_api.Prelude.{String, Option, none, some, ◌≡◌}
use va_enp_api.Effects.{Exception, Result, ok}

-- What is used of itsdangerous, with a key: `loads` raises on a text that `dumps` did not make with
-- the same key and salt.
pub record UrlSafeSerializer (Payload : Type 0) : Type 0 where
  pub dumps : (secret_key salt : String) → Payload → String
  pub loads : (secret_key salt : String) → String → Result Exception Payload

-- The documented round trip.
pub record IsSerializer {Payload : Type 0} (library : UrlSafeSerializer Payload) : Type 0 where
  pub loads-dumps :
      (secret_key salt : String) (payload : Payload)
      → library.loads secret_key salt (library.dumps secret_key salt payload) ≡ ok payload

pub record Serializer : Type 0 where
  pub secret_key : String
  pub salt : String

abbrev from_environment : Option String → String → String
from_environment none default = default
from_environment (some value) default = value

-- `Serializer()`, with the variables SECRET_KEY and DANGEROUS_SALT.
abbrev pub new_serializer : Option String → Option String → Serializer
new_serializer secret_key dangerous_salt = record {
  secret_key = from_environment secret_key "local_secret";
  salt = from_environment dangerous_salt "local_salt";
}

module _ {Payload : Type 0} (library : UrlSafeSerializer Payload) where
  unfoldable pub serialize : Serializer → Payload → String
  serialize serializer payload = library.dumps serializer.secret_key serializer.salt payload

  unfoldable pub deserialize : Serializer → String → Result Exception Payload
  deserialize serializer encoded_payload =
      library.loads serializer.secret_key serializer.salt encoded_payload

  -- Two serializers of the same environment read each other's texts.
  pub deserialize-serialize :
      IsSerializer library
      → (secret_key dangerous_salt : Option String) (payload : Payload)
      → deserialize
          (new_serializer secret_key dangerous_salt)
          (serialize (new_serializer secret_key dangerous_salt) payload)
        ≡ ok payload
  unfolding serialize deserialize
  deserialize-serialize documented secret_key dangerous_salt payload =
      documented.loads-dumps (from_environment secret_key "local_secret")
        (from_environment dangerous_salt "local_salt") payload
