-- ===== src/Logging/Hex.antt =====
-- `get_trace_context` of app/logging/logging_config.py, and Python's `format(number, '032x')`.
use Prim.Native.Char.{code}
use Prim.Native.Nat.{◌^◌}
use Prim.Native.String
use Prim.Native.String.{String}
use native.Mathlib.Nat.{pow-suc}
use text.Mathlib.TextLemmas.{nil-append, cons-append}
use va_enp_api.Prelude.{
  ℕ, zero, suc, ◌+◌, ◌-◌, ◌*◌, ◌/◌, ◌%◌, ◌≤◌, ◌<◌, ◌≡◌, refl, subst, ap, ◌∙◌, Bool, true, false,
  Option, none, some, List, [], ◌∷◌, ltb, arith, Bool-cases, inl, inr, if◌then◌else◌,
}
use va_enp_api.Auth.Secrets.{text_length, text_length-append}

abbrev pub hex_alphabet : List String
hex_alphabet =
    "0" ∷ "1" ∷ "2" ∷ "3" ∷ "4" ∷ "5" ∷ "6" ∷ "7" ∷ "8" ∷ "9" ∷ "a" ∷ "b" ∷ "c" ∷ "d" ∷ "e" ∷ "f"
    ∷ []

abbrev pub element : List String → ℕ → String
element [] n = ""
element (s ∷ ss) zero = s
element (s ∷ ss) (suc n) = element ss n

abbrev pub hex_digit : ℕ → String
hex_digit = element hex_alphabet

-- The digits of a number, with the steps that are allowed.
abbrev pub hex_digits : ℕ → ℕ → String
hex_digits zero n = ""
hex_digits (suc f) n = elim (ltb n 16) [
  | true ↦ hex_digit n
  | false ↦ String.◌++◌ (hex_digits f (n / 16)) (hex_digit (n % 16))
]

abbrev pub zeros : ℕ → String
zeros zero = ""
zeros (suc n) = String.◌∷◌ "0" (zeros n)

-- `format(number, '0<width>x')`
unfoldable pub format_hex : (width number : ℕ) → String
format_hex width number =
    let digits = hex_digits (suc number) number in
    String.◌++◌ (zeros (width - text_length digits)) digits

-- What the text of a hexadecimal number stands for.
abbrev pub hex_value : ℕ → ℕ
hex_value c = if ltb c 58 then c - 48 else c - 87

abbrev pub read_hex : ℕ → String → ℕ
read_hex read String.[] = read
read_hex read (String.◌∷◌ c s) = read_hex (read * 16 + hex_value (code c)) s

-- The identifiers of the current span, if it is valid.
pub record SpanContext : Type 0 where
  pub trace_id : ℕ
  pub span_id : ℕ
  pub is_valid : Bool

unfoldable pub get_trace_context : Option SpanContext → String × String
unfolding format_hex
get_trace_context none = ("none", "none")
get_trace_context (some ctx) =
    if ctx.is_valid
    then (format_hex 32 ctx.trace_id, format_hex 16 ctx.span_id)
    else ("none", "none")

read_hex-append :
    (read : ℕ) (s t : String) → read_hex read (String.◌++◌ s t) ≡ read_hex (read_hex read s) t
read_hex-append read String.[] t = ap (read_hex read) (nil-append t)
read_hex-append read (String.◌∷◌ c s) t =
    ap (read_hex read) (cons-append c s t) ∙ read_hex-append (read * 16 + hex_value (code c)) s t

digit-cases :
    (d : ℕ)
    → d < 16
    → (text_length (hex_digit d) ≡ 1) × ((read : ℕ) → read_hex read (hex_digit d) ≡ read * 16 + d)
digit-cases zero h = (refl, λ read. refl)
digit-cases (suc zero) h = (refl, λ read. refl)
digit-cases (suc (suc zero)) h = (refl, λ read. refl)
digit-cases (suc (suc (suc zero))) h = (refl, λ read. refl)
digit-cases (suc (suc (suc (suc zero)))) h = (refl, λ read. refl)
digit-cases (suc (suc (suc (suc (suc zero))))) h = (refl, λ read. refl)
digit-cases (suc (suc (suc (suc (suc (suc zero)))))) h = (refl, λ read. refl)
digit-cases (suc (suc (suc (suc (suc (suc (suc zero))))))) h = (refl, λ read. refl)
digit-cases (suc (suc (suc (suc (suc (suc (suc (suc zero)))))))) h = (refl, λ read. refl)
digit-cases (suc (suc (suc (suc (suc (suc (suc (suc (suc zero))))))))) h = (refl, λ read. refl)
digit-cases (suc (suc (suc (suc (suc (suc (suc (suc (suc (suc zero)))))))))) h =
    (refl, λ read. refl)
digit-cases (suc (suc (suc (suc (suc (suc (suc (suc (suc (suc (suc zero))))))))))) h =
    (refl, λ read. refl)
digit-cases (suc (suc (suc (suc (suc (suc (suc (suc (suc (suc (suc (suc zero)))))))))))) h =
    (refl, λ read. refl)
digit-cases (suc (suc (suc (suc (suc (suc (suc (suc (suc (suc (suc (suc (suc zero))))))))))))) h =
    (refl, λ read. refl)
digit-cases (suc (suc (suc (suc (suc (suc (suc (suc (suc (suc (suc (suc (suc (suc zero))))))))))))))
      h =
    (refl, λ read. refl)
digit-cases
      (suc (suc (suc (suc (suc (suc (suc (suc (suc (suc (suc (suc (suc (suc (suc zero)))))))))))))))
      h =
    (refl, λ read. refl)
digit-cases
      (suc
        (suc (suc (suc (suc (suc (suc (suc (suc (suc (suc (suc (suc (suc (suc (suc d))))))))))))))))
      h =
    absurd (omega (arith, h))

hex_digits-small : (f n : ℕ) → ltb n 16 ≡ true → hex_digits (suc f) n ≡ hex_digit n
hex_digits-small f n e = rw (hex_digits, e) refl

hex_digits-large :
    (f n : ℕ)
    → ltb n 16 ≡ false
    → hex_digits (suc f) n ≡ String.◌++◌ (hex_digits f (n / 16)) (hex_digit (n % 16))
hex_digits-large f n e = rw (hex_digits, e) refl

read_hex-hex_digits : (f n : ℕ) → n < f → read_hex 0 (hex_digits f n) ≡ n
read_hex-hex_digits zero n h = absurd (omega (arith, h))
read_hex-hex_digits (suc f) n h = elim (Bool-cases (ltb n 16)) [
  | inl e ↦
      ap (read_hex 0) (hex_digits-small f n e) ∙ (digit-cases n (ground arith)).1 0 ∙ omega arith
  | inr e ↦
      let small : 16 ≤ n = ground arith in
      let rest = read_hex-hex_digits f (n / 16) (omega (arith, h, small)) in
      ap (read_hex 0) (hex_digits-large f n e)
      ∙ read_hex-append 0 (hex_digits f (n / 16)) (hex_digit (n % 16))
      ∙ (digit-cases (n % 16) (omega arith)).1 (read_hex 0 (hex_digits f (n / 16)))
      ∙ ap (λ r. r * 16 + n % 16) rest
      ∙ omega arith
]

text_length-hex_digits : (f n w : ℕ) → n < 16 ^ suc w → text_length (hex_digits f n) ≤ suc w
text_length-hex_digits zero n w h = omega arith
text_length-hex_digits (suc f) n zero h =
    let small : n < 16 = omega (arith, h) in
    let one = (digit-cases n small).0 in
    let digits = ap text_length (hex_digits-small f n (ground arith)) in omega (arith, one, digits)
text_length-hex_digits (suc f) n (suc w) h = elim (Bool-cases (ltb n 16)) [
  | inl e ↦
      let one = (digit-cases n (ground arith)).0 in
      let digits = ap text_length (hex_digits-small f n e) in omega (arith, one, digits)
  | inr e ↦
      let bound : n < 16 ^ suc w * 16 = subst (λ k. n < k) (pow-suc 16 (suc w)) h in
      let rest = text_length-hex_digits f (n / 16) w (omega (arith, bound)) in
      let one = (digit-cases (n % 16) (omega arith)).0 in
      let digits =
        ap text_length (hex_digits-large f n e)
        ∙ text_length-append (hex_digits f (n / 16)) (hex_digit (n % 16)) in
      omega (arith, rest, one, digits)
]

text_length-zeros : (n : ℕ) → text_length (zeros n) ≡ n
text_length-zeros zero = refl
text_length-zeros (suc n) = omega (arith, text_length-zeros n)

read_hex-zeros : (n : ℕ) → read_hex 0 (zeros n) ≡ 0
read_hex-zeros zero = refl
read_hex-zeros (suc n) = read_hex-zeros n

-- A number that fits is formatted with the width, and its text stands for it.
pub format_hex-Reads :
    (w number : ℕ)
    → number < 16 ^ suc w
    → (text_length (format_hex (suc w) number) ≡ suc w)
      × (read_hex 0 (format_hex (suc w) number) ≡ number)
unfolding format_hex
format_hex-Reads w number h =
    let digits = hex_digits (suc number) number in
    let fits = text_length-hex_digits (suc number) number w h in
    let padding = text_length-zeros (suc w - text_length digits) in
    (
      text_length-append (zeros (suc w - text_length digits)) digits ∙ omega (arith, padding, fits),
      read_hex-append 0 (zeros (suc w - text_length digits)) digits
          ∙ ap (λ r. read_hex r digits) (read_hex-zeros (suc w - text_length digits))
          ∙ read_hex-hex_digits (suc number) number (omega arith),
    )

-- The identifiers that a log line carries of a valid span, a number of 128 bits and one of 64, are
-- texts of 32 and 16 characters, and each text stands for its number.
pub get_trace_context-Reads :
    (ctx : SpanContext)
    → ctx.is_valid ≡ true
    → ctx.trace_id < 2 ^ 128
    → ctx.span_id < 2 ^ 64
    → (text_length (get_trace_context (some ctx)).0 ≡ 32)
      × (text_length (get_trace_context (some ctx)).1 ≡ 16)
      × (read_hex 0 (get_trace_context (some ctx)).0 ≡ ctx.trace_id)
      × (read_hex 0 (get_trace_context (some ctx)).1 ≡ ctx.span_id)
unfolding get_trace_context
get_trace_context-Reads ctx valid trace span =
    let (l, t) = format_hex-Reads 31 ctx.trace_id trace in
    let (m, u) = format_hex-Reads 15 ctx.span_id span in rw valid (l, m, t, u)
