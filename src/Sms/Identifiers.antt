-- ===== src/Sms/Identifiers.antt =====
-- `is_valid_recipient_id_value` of app/legacy/v2/notifications/validators.py. Its patterns are
-- matched as `re.match` does: by code points, and `$` also before a newline at the end.
use Prim.Native.Char.{Char, code}
use Prim.Native.Nat.{ℕ, zero, suc}
use Prim.Native.String.{String}
use va_enp_api.Prelude.{Bool, true, false, ◌&&◌, ◌||◌, ◌==◌, ◌≡◌}
use va_enp_api.Constants.{IdentifierType, birlsid, edipi, icn, pid, va_profile_id}

-- `$`
abbrev pub at_end : String → Bool
at_end String.[] = true
at_end (String.◌∷◌ c String.[]) = code c == 10
at_end (String.◌∷◌ c (String.◌∷◌ d s)) = false

abbrev pub letter_v : (String → Bool) → String → Bool
letter_v rest String.[] = false
letter_v rest (String.◌∷◌ c s) = code c == b'V' && rest s

-- `\d` is a decimal digit of the Unicode data, which are not this program's.
module _ (is_decimal : Char → Bool) where
  -- `\d+$`
  abbrev pub some_digits : String → Bool
  some_digits String.[] = false
  some_digits (String.◌∷◌ c s) = is_decimal c && (at_end s || some_digits s)

  -- `\d{n}`, and then what `rest` matches.
  abbrev pub digits : ℕ → (String → Bool) → String → Bool
  digits zero rest s = rest s
  digits (suc n) rest String.[] = false
  digits (suc n) rest (String.◌∷◌ c s) = is_decimal c && digits n rest s

  unfoldable pub is_valid_recipient_id_value : IdentifierType → String → Bool
  is_valid_recipient_id_value va_profile_id s = some_digits s
  is_valid_recipient_id_value edipi s = some_digits s
  is_valid_recipient_id_value pid s = some_digits s
  is_valid_recipient_id_value icn s = digits 10 (letter_v (digits 6 at_end)) s
  is_valid_recipient_id_value birlsid s = some_digits s

  -- A text of digits.
  abbrev pub AllDigits : String → Type 0
  AllDigits String.[] = Unit
  AllDigits (String.◌∷◌ c s) = (is_decimal c ≡ true) × AllDigits s
