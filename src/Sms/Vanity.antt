-- ===== src/Sms/Vanity.antt =====
-- `PhoneNumberValidator_RejectVanity` of app/legacy/v2/notifications/route_schema.py: a telephone
-- number with letters is refused, apart from an extension. The number itself is parsed by the
-- library of phone numbers.
use Prim.Native.Char.{Char, code}
use Prim.Native.String.{String}
use va_enp_api.Prelude.{Bool, false, ◌&&◌, ◌||◌, ◌==◌, leb, List, [], ◌∷◌, if◌then◌else◌}
use va_enp_api.Effects.{Exception, value_error, Result, ok, err}
use va_enp_api.Sms.Identifiers.{some_digits}

-- `[A-Za-z]`
abbrev pub is_letter : Char → Bool
is_letter c = leb 65 (code c) && leb (code c) 90 || leb 97 (code c) && leb (code c) 122

abbrev pub has_letter : String → Bool
has_letter String.[] = false
has_letter (String.◌∷◌ c s) = is_letter c || has_letter s

-- `re.sub`: the match reaches to the end, or to a newline there, which stays.
abbrev pub end_of : String → String
end_of String.[] = ""
end_of (String.◌∷◌ c String.[]) = if code c == 10 then String.◌∷◌ c "" else ""
end_of (String.◌∷◌ c (String.◌∷◌ d s)) = end_of (String.◌∷◌ d s)

-- The classes `\s` and `\d`, `str.isspace`, and the comparison without case are the Unicode data's.
module _ (is_space is_decimal : Char → Bool) (same_letter : (letter c : Char) → Bool) where
  -- `\s*\d+$`
  abbrev pub spaces_digits : String → Bool
  spaces_digits String.[] = false
  spaces_digits (String.◌∷◌ c s) =
      some_digits is_decimal (String.◌∷◌ c s) || is_space c && spaces_digits s

  -- The letters of a word, and what follows them.
  abbrev pub word_then : List Char → String → Bool
  word_then [] s = spaces_digits s
  word_then (letter ∷ letters) String.[] = false
  word_then (letter ∷ letters) (String.◌∷◌ c s) = same_letter letter c && word_then letters s

  -- `(x|ext|extension)\s*\d+$`
  abbrev pub marked_extension : String → Bool
  marked_extension s =
      word_then ("x" ∷ []) s
      || word_then ("e" ∷ "x" ∷ "t" ∷ []) s
      || word_then ("e" ∷ "x" ∷ "t" ∷ "e" ∷ "n" ∷ "s" ∷ "i" ∷ "o" ∷ "n" ∷ []) s

  -- `\s*` before it
  abbrev pub is_extension : String → Bool
  is_extension String.[] = false
  is_extension (String.◌∷◌ c s) = marked_extension (String.◌∷◌ c s) || is_space c && is_extension s

  abbrev pub without_extension : String → String
  without_extension String.[] = ""
  without_extension (String.◌∷◌ c s) =
      let rest = without_extension s in
      if is_extension (String.◌∷◌ c s) then end_of (String.◌∷◌ c s) else String.◌∷◌ c rest

  -- `strip()` takes no letter away, so the search may be made without it.
  unfoldable pub vanity_check : String → Result Exception String
  vanity_check phone_number =
      if has_letter (without_extension phone_number)
      then err (value_error "value is not a valid phone number")
      else ok phone_number
