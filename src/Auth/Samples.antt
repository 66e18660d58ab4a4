-- ===== src/Auth/Samples.antt =====
-- Collaborators of the authentication in memory: a token is signed with the secret that it spells,
-- and the clock stands still.
use va_enp_api.Prelude.{String, true, false, Option, none, some, [], ◌∷◌, str_eq, if◌then◌else◌}
use va_enp_api.Prelude.Int.{pos}
use va_enp_api.Effects.{Result, ok, err}
use va_enp_api.Cache.{no_cache}
use va_enp_api.Retry.Samples.{simple_tenacity}
use va_enp_api.Dao.Rows.{ServiceRow, ApiKeyRow, operational_error, timeout_error, interface_error}
use va_enp_api.Dao.Samples.{Tables, tables_db, no_tables}
use va_enp_api.Auth.Tokens.{Payload, Settings, Jwt, JwtError, invalid_signature, integer, text}
use va_enp_api.Auth.Service.{State, Collaborators}

abbrev pub claims : Payload
claims = record { iss = some (text "s1"); iat = some (integer (pos 1000)) }

abbrev signed_with : String → String → Result JwtError Payload
signed_with token key = if str_eq token key then ok claims else err invalid_signature

abbrev pub settings : Settings
settings = record {
  admin_secret_key = "not-very-secret";
  algorithm = "HS256";
  access_token_expire_seconds = pos 60;
}

abbrev pub jwt : Jwt Tables
jwt = record {
  decode = λ token key algorithm leeway w. signed_with token key;
  decode_unverified = λ token algorithm. ok claims;
  int_of_text = λ s. none;
  str_of_claim = λ c. "";
  time = λ w. pos 1010;
  utc_now = λ w. pos 5000;
}

abbrev known_uuid : String → Option String
known_uuid s = if str_eq s "s1" then some s else none

abbrev pub collaborators : Collaborators Tables
collaborators = record {
  settings = settings;
  jwt = jwt;
  b64decode = λ s. some s;
  uuid = known_uuid;
  uuid4 = λ w. ("n1", w);
  tenacity = simple_tenacity Tables;
  db = tables_db;
  services = no_cache Tables String _;
  api_keys = no_cache Tables String _;
}

abbrev key_row : String → String → ApiKeyRow
key_row id encoded = record {
  id = id;
  secret = encoded;
  service_id = "s1";
  expiry_date = some (record { reading = pos 1; tzinfo = none });
  revoked = false;
  key_type = "normal";
}

-- Its expiry date has passed.
abbrev pub old_key : ApiKeyRow
old_key = key_row "k1" "abcd.sig"

abbrev pub other_key : ApiKeyRow
other_key = key_row "k2" "efgh.sig"

abbrev pub revoked_key : ApiKeyRow
revoked_key = record old_key { id = "k3"; revoked = true }

abbrev clinic : ServiceRow
clinic = record { id = "s1"; name = "clinic"; active = true }

abbrev pub clinic_tables : Tables
clinic_tables = record no_tables { services = clinic ∷ []; api_keys = other_key ∷ old_key ∷ [] }

abbrev pub down_tables : Tables
down_tables = record clinic_tables {
  faults = operational_error ∷ timeout_error ∷ interface_error ∷ [];
}

abbrev pub fresh : Tables → State Tables
fresh w = record {
  context = record { request_id = none; api_key_id = none; service_id = none };
  outside = w;
}
