-- ===== src/Auth/Secrets.antt =====
-- `ApiKeyRecord` and `decode_and_remove_signature` of app/legacy/dao/api_keys_dao.py.
use Prim.Native.Char.{Char, code}
use Prim.Native.Nat.{ℕ, zero, suc, ◌≤◌, ◌+◌, ◌-◌, ◌%◌, ◌<◌}
use Prim.Native.String
use Prim.Native.String.{String}
use native.Mathlib.Omega.{arith}
use mathlib.Core.Path.{◌≡◌, refl}
use mathlib.Core.Bool.{Bool}
use mathlib.Core.Option.{Option, none, some}
use text.Mathlib.TextLemmas.{nil-append, cons-append}
use mathlib.Core.Logic.{◌≢◌, inl, inr}
use va_enp_api.Prelude.{◌==◌, Bool-cases, if◌then◌else◌}
use va_enp_api.Prelude.Int.{pos}
use va_enp_api.Effects.{Exception, non_retryable_error, Result, ok, err}
use va_enp_api.Dao.Rows.{DateTime, ApiKeyRow}

pub record ApiKeyRecord : Type 0 where
  pub id : String
  pub secret_encrypted : String
  pub service_id : String
  pub expiry_date : Option DateTime
  pub revoked : Bool
  pub key_type : String

-- `expiry if expiry.tzinfo else expiry.replace(tzinfo=timezone.utc)`
abbrev pub as_aware : DateTime → DateTime
as_aware d = elim d.tzinfo [ some _ ↦ d | none ↦ record d { tzinfo = some (pos 0) } ]

abbrev pub aware_expiry : Option DateTime → Option DateTime
aware_expiry none = none
aware_expiry (some d) = some (as_aware d)

unfoldable pub from_row : ApiKeyRow → ApiKeyRecord
from_row row = record {
  id = row.id;
  secret_encrypted = row.secret;
  service_id = row.service_id;
  expiry_date = aware_expiry row.expiry_date;
  revoked = row.revoked;
  key_type = row.key_type;
}

-- `len(s)`, which counts code points.
abbrev pub text_length : String → ℕ
text_length String.[] = 0
text_length (String.◌∷◌ c s) = suc (text_length s)

abbrev is_char : ℕ → Char → Bool
is_char n c = code c == n

-- `encoded.split('.')[0]`
unfoldable pub first_part : String → String
first_part String.[] = ""
first_part (String.◌∷◌ c s) = if is_char b'.' c then "" else String.◌∷◌ c (first_part s)

-- `-n % 4`
abbrev pub missing_padding : ℕ → ℕ
missing_padding n = (4 - n % 4) % 4

abbrev equal_signs : ℕ → String
equal_signs zero = String.[]
equal_signs (suc n) = String.◌∷◌ "=" (equal_signs n)

-- `first_part + '=' * (-len(first_part) % 4)`
unfoldable pub padded : String → String
padded s = String.◌++◌ s (equal_signs (missing_padding (text_length s)))

-- `value.strip('"')`: from the left, then from the right.
strip_left : String → String
strip_left String.[] = String.[]
strip_left (String.◌∷◌ c s) = if is_char b'"' c then strip_left s else String.◌∷◌ c s

-- The text before the last run of quotes, given what follows this character.
abbrev strip_step : Char → String → String
strip_step c String.[] = if is_char b'"' c then String.[] else String.◌∷◌ c String.[]
strip_step c s = String.◌∷◌ c s

strip_right : String → String
strip_right String.[] = String.[]
strip_right (String.◌∷◌ c s) = strip_step c (strip_right s)

unfoldable pub strip_quotes : String → String
unfolding strip_left strip_right
strip_quotes s = strip_right (strip_left s)

-- `b64decode` is `base64.urlsafe_b64decode` followed by `bytes.decode`; `none` is any exception.
module _ (b64decode : String → Option String) where
  unfoldable pub decode_and_remove_signature : String → Result Exception String
  unfolding first_part padded strip_quotes
  decode_and_remove_signature encoded = elim (b64decode (padded (first_part encoded))) [
    | none ↦ err (non_retryable_error (some "Failure decoding value"))
    | some decoded ↦ ok (strip_quotes decoded)
  ]

  -- The property `secret`, which logs and raises again.
  unfoldable pub secret : ApiKeyRecord → Result Exception String
  unfolding decode_and_remove_signature
  secret key = decode_and_remove_signature key.secret_encrypted

pub text_length-append :
    (s t : String) → text_length (String.◌++◌ s t) ≡ text_length s + text_length t
text_length-append String.[] t = rw nil-append (omega arith)
text_length-append (String.◌∷◌ c s) t = rw cons-append (omega (arith, text_length-append s t))

text_length-equal_signs : (n : ℕ) → text_length (equal_signs n) ≡ n
text_length-equal_signs zero = refl
text_length-equal_signs (suc n) = omega (arith, text_length-equal_signs n)

-- What is handed to the base64 decoder has a length that is a multiple of four, and is at most
-- three characters longer than the text that it pads.
pub padded_length :
    (s : String)
    → (text_length (padded s) % 4 ≡ 0)
      × (text_length s ≤ text_length (padded s))
      × (text_length (padded s) < text_length s + 4)
unfolding padded
padded_length s =
    let n = text_length s in
    rw
      (
        text_length-append s (equal_signs (missing_padding n)),
        text_length-equal_signs (missing_padding n),
      )
      (omega arith)

abbrev pub Lacks : ℕ → String → Type 0
Lacks n String.[] = Unit
Lacks n (String.◌∷◌ c s) = (code c ≢ n) × Lacks n s

-- The first part of a secret holds no dot, and is the whole of a secret without one.
pub first_part-Lacks : (s : String) → Lacks b'.' (first_part s)
unfolding first_part
first_part-Lacks String.[] = tt
first_part-Lacks (String.◌∷◌ c s) = elim (Bool-cases (code c == b'.')) [
  | inl dot ↦ rw dot tt
  | inr other ↦ rw other (ground arith, first_part-Lacks s)
]

-- Every expiry date that a record holds carries a time zone, so it can be compared with an aware one.
pub from_row-aware :
    (row : ApiKeyRow) (d : DateTime) → (from_row row).expiry_date ≡ some d → d.tzinfo ≢ none
unfolding from_row
from_row-aware row d h = ground arith
