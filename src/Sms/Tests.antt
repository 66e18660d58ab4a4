-- ===== src/Sms/Tests.antt =====
-- Runs of the checks of an SMS request: identifiers and the fields of templates.
use Prim.Native.Char.{Char, code}
use va_enp_api.Prelude.{◌≡◌, refl, Bool, true, false, ◌&&◌, [], ◌∷◌, leb, arith}
use va_enp_api.Constants.{icn, pid}
use va_enp_api.Sms.Identifiers.{is_valid_recipient_id_value}
use va_enp_api.Sms.Fields.{collect_personalisation_from_template}
use va_enp_api.Sms.Scanning.{collect_personalisation_from_template-template_of}

abbrev ascii_digit : Char → Bool
ascii_digit c = leb 48 (code c) && leb (code c) 57

icn_accepted : is_valid_recipient_id_value ascii_digit icn "1234567890V123456" ≡ true
unfolding is_valid_recipient_id_value
icn_accepted = refl

-- `$` matches before a newline at the end.
newline_accepted : is_valid_recipient_id_value ascii_digit pid "12\n" ≡ true
unfolding is_valid_recipient_id_value
newline_accepted = refl

icn_too_short : is_valid_recipient_id_value ascii_digit icn "123456789V123456" ≡ false
unfolding is_valid_recipient_id_value
icn_too_short = refl

collect_personalisation_from_template-template_of_example :
    collect_personalisation_from_template "Dear ((name)), on ((day))." ≡ "name" ∷ "day" ∷ []
collect_personalisation_from_template-template_of_example =
    collect_personalisation_from_template-template_of
      (record { plain = "Dear "; field = "name" } ∷ record { plain = ", on "; field = "day" } ∷ [])
      "."
      (
        record { no_opening = ground arith; no_closing = ground arith; one_line = ground arith },
        (
          record { no_opening = ground arith; no_closing = ground arith; one_line = ground arith },
          tt,
        ),
      )
      (ground arith)

unclosed : collect_personalisation_from_template "((a)(b)) ((c\n)) (((d)))" ≡ "a)(b" ∷ "(d" ∷ []
unfolding collect_personalisation_from_template
unclosed = refl
