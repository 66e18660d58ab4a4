-- ===== src/Sms/Samples.antt =====
-- Collaborators of the SMS endpoint in memory, and a request.
use Prim.Native.Char.{Char, code}
use va_enp_api.Prelude.{
  ℕ, String, Bool, true, false, ◌&&◌, Option, none, some, [], ◌∷◌, leb, f_string, str_eq,
  if◌then◌else◌,
}
use va_enp_api.Prelude.Int.{pos}
use va_enp_api.Constants.{sms, pid}
use va_enp_api.Effects.{ok}
use va_enp_api.Cache.{no_cache}
use va_enp_api.Dao.Rows.{TemplateRow, SmsSenderRow, RecipientIdentifier}
use va_enp_api.Dao.Writes.{Personalisation}
use va_enp_api.Dao.Samples.{Tables}
use va_enp_api.Auth.Service.{State}
use va_enp_api.Auth.Bearer.{Credentials}
use va_enp_api.Auth.Samples.{collaborators, clinic_tables}
use va_enp_api.Redis.Server.{Redis, number}
use va_enp_api.Limits.Strategies.{fixed, windowed}
use va_enp_api.Limits.Limiter.{RateLimiter}
use va_enp_api.Sms.Requests.{SmsRequest}
use va_enp_api.Sms.Templates.{TemplateKey}
use va_enp_api.Sms.Handler.{SmsCollaborators}

abbrev pub ascii_digit : Char → Bool
ascii_digit c = leb 48 (code c) && leb (code c) 57

-- A stand-in for `str.lower` that knows one name.
abbrev pub lower : String → String
lower s = if str_eq s "Name" then "name" else s

abbrev pub template : TemplateRow
template = record {
  id = "t1";
  service_id = "s1";
  template_type = sms;
  archived = false;
  version = 3;
  content = "Dear ((name))";
  reply_to_text = none;
}

abbrev pub given : Option Personalisation
given = some (("Name", "Ann") ∷ ("other", "x") ∷ [])

abbrev pub sender : SmsSenderRow
sender = record { id = "n1"; service_id = "s1"; sms_sender = "+18005550100" }

abbrev pub tables : Tables
tables = record clinic_tables { templates = template ∷ []; sms_senders = sender ∷ [] }

abbrev pub sms_collaborators : SmsCollaborators Tables
sms_collaborators = record {
  auth = collaborators;
  senders = no_cache Tables _ String;
  templates = no_cache Tables TemplateKey TemplateRow;
  template_rows = no_cache Tables (String × String) TemplateRow;
  lower = lower;
  join = f_string;
  serialize = λ p. "{}";
}

abbrev pub veteran : RecipientIdentifier
veteran = record { id_type = pid; id_value = "12" }

abbrev pub request : SmsRequest
request = record {
  billing_code = none;
  callback_url = none;
  personalisation = given;
  recipient_identifier = some veteran;
  reference = some "r1";
  template_id = "t1";
  scheduled_for = none;
  phone_number = none;
  sms_sender_id = none;
}

abbrev pub known : Tables → State Tables
known w = record {
  context = record { request_id = some "n1"; api_key_id = some "k1"; service_id = some "s1" };
  outside = w;
}

-- A Redis whose counters are never used up.
abbrev pub generous : Redis Tables
generous = record {
  set_nx = λ k v ex w. (ok tt, w);
  get = λ k w. (ok (some (number (pos 5))), w);
  decrby = λ k w. (ok tt, w);
  aclose = λ w. (ok tt, w);
  disconnect = λ w. (ok tt, w);
}

abbrev pub limiter : RateLimiter
limiter = record {
  strategy =
      windowed
        (record { limit = pos 5; window_type = some fixed; window_duration = some (pos 30) });
  fail_open = true;
}

abbrev pub noon : Tables → ℕ
noon w = 43200000000

abbrev pub credentials : Credentials
credentials = ok (some "abcd")
