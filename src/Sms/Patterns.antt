-- ===== src/Sms/Patterns.antt =====
-- Which identifiers `is_valid_recipient_id_value` of app/legacy/v2/notifications/validators.py
-- accepts, apart from how its patterns are matched.
use Prim.Native.Char.{Char, code}
use Prim.Native.Nat.{ℕ, zero, suc}
use Prim.Native.String
use Prim.Native.String.{String}
use text.Mathlib.TextEquality.{Char-path}
use text.Mathlib.TextLemmas.{nil-append, cons-append}
use va_enp_api.Prelude.{
  Bool, true, ◌==◌, ◌≡◌, ◌≢◌, ◌↔◌, inl, inr, refl, sym, ap, ◌∙◌, arith, Bool-cases,
}
use va_enp_api.Constants.{IdentifierType, birlsid, edipi, icn, pid, va_profile_id}
use va_enp_api.Auth.Secrets.{text_length}
use va_enp_api.Sms.Identifiers.{
  at_end, some_digits, digits, letter_v, is_valid_recipient_id_value, AllDigits,
}

module _ (is_decimal : Char → Bool) where
  -- A text that begins with so many digits, and what follows them.
  pub record Splits (n : ℕ) (rest : String → Bool) (s : String) : Type 0 where
    pub front : String
    pub back : String
    pub text : s ≡ String.◌++◌ front back
    pub all : AllDigits is_decimal front
    pub long : text_length front ≡ n
    pub continues : rest back ≡ true

  digits-Splits :
      (n : ℕ) (rest : String → Bool) (s : String)
      → digits is_decimal n rest s ≡ true
      → Splits n rest s
  digits-Splits zero rest s h = record {
    front = "";
    back = s;
    text = sym (nil-append s);
    all = tt;
    long = refl;
    continues = h;
  }
  digits-Splits (suc n) rest String.[] h = absurd (ground arith)
  digits-Splits (suc n) rest (String.◌∷◌ c s) h = elim (Bool-cases (is_decimal c)) [
    | inl digit ↦
        let r = digits-Splits n rest s (ground arith) in
        record {
          front = String.◌∷◌ c r.front;
          back = r.back;
          text = ap (String.◌∷◌ c) r.text ∙ sym (cons-append c r.front r.back);
          all = (digit, r.all);
          long = omega (arith, r.long);
          continues = r.continues;
        }
    | inr other ↦ absurd (ground arith)
  ]

  Splits-digits :
      (n : ℕ) (rest : String → Bool) (front back : String)
      → AllDigits is_decimal front
      → text_length front ≡ n
      → rest back ≡ true
      → digits is_decimal n rest (String.◌++◌ front back) ≡ true
  Splits-digits zero rest String.[] back all long continues = ap rest (nil-append back) ∙ continues
  Splits-digits zero rest (String.◌∷◌ c s) back all long continues = absurd (omega (arith, long))
  Splits-digits (suc n) rest String.[] back all long continues = absurd (omega (arith, long))
  Splits-digits (suc n) rest (String.◌∷◌ c s) back (digit, all) long continues =
      let h = Splits-digits n rest s back all (omega (arith, long)) continues in
      ap (digits is_decimal (suc n) rest) (cons-append c s back) ∙ ground arith

  -- A text of one digit or more, and the end.
  pub record IsNumeric (s : String) : Type 0 where
    pub front : String
    pub back : String
    pub text : s ≡ String.◌++◌ front back
    pub all : AllDigits is_decimal front
    pub some_digit : text_length front ≢ 0
    pub ends : at_end back ≡ true

  IsNumeric-some_digits : (s : String) → some_digits is_decimal s ≡ true → IsNumeric s
  IsNumeric-some_digits String.[] h = absurd (ground arith)
  IsNumeric-some_digits (String.◌∷◌ c s) h = elim (Bool-cases (is_decimal c)) [
    | inr other ↦ absurd (ground arith)
    | inl digit ↦ elim (Bool-cases (at_end s)) [
      | inl ends ↦ record {
        front = String.◌∷◌ c "";
        back = s;
        text = sym (cons-append c "" s ∙ ap (String.◌∷◌ c) (nil-append s));
        all = (digit, tt);
        some_digit = λ e. absurd (omega (arith, e));
        ends = ends;
      }
      | inr goes_on ↦
          let r = IsNumeric-some_digits s (ground arith) in
          record {
            front = String.◌∷◌ c r.front;
            back = r.back;
            text = ap (String.◌∷◌ c) r.text ∙ sym (cons-append c r.front r.back);
            all = (digit, r.all);
            some_digit = λ e. absurd (omega (arith, e));
            ends = r.ends;
          }
    ]
  ]

  digits_on :
      (c : Char) (s back : String)
      → is_decimal c ≡ true
      → at_end back ≡ true
      → (text_length s ≢ 0 → some_digits is_decimal (String.◌++◌ s back) ≡ true)
      → some_digits is_decimal (String.◌∷◌ c (String.◌++◌ s back)) ≡ true
  digits_on c String.[] back digit ends on = let same = nil-append back in rw same (ground arith)
  digits_on c (String.◌∷◌ d s) back digit ends on =
      let more = on (λ e. absurd (omega (arith, e))) in
      elim (Bool-cases (at_end (String.◌++◌ (String.◌∷◌ d s) back))) [
        | inl a ↦ rw (digit, a) refl
        | inr a ↦ rw (digit, a, more) refl
      ]

  some_digits-append :
      (front back : String)
      → AllDigits is_decimal front
      → at_end back ≡ true
      → text_length front ≢ 0
      → some_digits is_decimal (String.◌++◌ front back) ≡ true
  some_digits-append String.[] back all ends some_digit = absurd (some_digit refl)
  some_digits-append (String.◌∷◌ c s) back (digit, all) ends some_digit =
      ap (some_digits is_decimal) (cons-append c s back)
      ∙ digits_on c s back digit ends (some_digits-append s back all ends)

  -- Ten digits, the letter V, six digits, and the end.
  pub record IsIcn (s : String) : Type 0 where
    pub ten : String
    pub six : String
    pub back : String
    pub text : s ≡ String.◌++◌ ten (String.◌∷◌ "V" (String.◌++◌ six back))
    pub all : AllDigits is_decimal ten × AllDigits is_decimal six
    pub long : (text_length ten ≡ 10) × (text_length six ≡ 6)
    pub ends : at_end back ≡ true

  letter_v-tail :
      (rest : String → Bool) (s : String)
      → letter_v rest s ≡ true
      → (t : String) × (s ≡ String.◌∷◌ "V" t) × (rest t ≡ true)
  letter_v-tail rest String.[] h = absurd (ground arith)
  letter_v-tail rest (String.◌∷◌ c s) h = elim (Bool-cases (code c == b'V')) [
    | inl v ↦ (s, ap (λ d. String.◌∷◌ d s) (Char-path c "V" (ground arith)), ground arith)
    | inr other ↦ absurd (ground arith)
  ]

  IsIcn-of :
      (s : String) → digits is_decimal 10 (letter_v (digits is_decimal 6 at_end)) s ≡ true → IsIcn s
  IsIcn-of s h =
      let a = digits-Splits 10 (letter_v (digits is_decimal 6 at_end)) s h in
      let (t, v, b) = letter_v-tail (digits is_decimal 6 at_end) a.back a.continues in
      let b = digits-Splits 6 at_end t b in
      record {
        ten = a.front;
        six = b.front;
        back = b.back;
        text = a.text ∙ ap (String.◌++◌ a.front) (v ∙ ap (String.◌∷◌ "V") b.text);
        all = (a.all, b.all);
        long = (a.long, b.long);
        ends = b.continues;
      }

  of-IsIcn :
      (s : String) → IsIcn s → digits is_decimal 10 (letter_v (digits is_decimal 6 at_end)) s ≡ true
  of-IsIcn s i =
      ap (digits is_decimal 10 (letter_v (digits is_decimal 6 at_end))) i.text
      ∙ Splits-digits 10 (letter_v (digits is_decimal 6 at_end)) i.ten
          (String.◌∷◌ "V" (String.◌++◌ i.six i.back)) i.all.0 i.long.0
          (Splits-digits 6 at_end i.six i.back i.all.1 i.long.1 i.ends)

  -- What an identifier of each type looks like.
  abbrev pub HasForm : IdentifierType → String → Type 0
  HasForm icn s = IsIcn s
  HasForm _ s = IsNumeric s

  IsNumeric-iff : (s : String) → (some_digits is_decimal s ≡ true) ↔ IsNumeric s
  IsNumeric-iff s = (
    IsNumeric-some_digits s,
    λ i.
        ap (some_digits is_decimal) i.text
        ∙ some_digits-append i.front i.back i.all i.ends i.some_digit,
  )

  -- A value is valid for an identifier type exactly when it has the form of that type, which one
  -- newline at the end may follow: ten digits, V and six digits for an ICN, and otherwise one digit
  -- or more. The digits are the decimal digits of all scripts.
  pub is_valid_recipient_id_value-eq-true_iff :
      (id_type : IdentifierType) (id_value : String)
      → (is_valid_recipient_id_value is_decimal id_type id_value ≡ true) ↔ HasForm id_type id_value
  unfolding is_valid_recipient_id_value
  is_valid_recipient_id_value-eq-true_iff icn s = (IsIcn-of s, of-IsIcn s)
  is_valid_recipient_id_value-eq-true_iff va_profile_id s = IsNumeric-iff s
  is_valid_recipient_id_value-eq-true_iff edipi s = IsNumeric-iff s
  is_valid_recipient_id_value-eq-true_iff pid s = IsNumeric-iff s
  is_valid_recipient_id_value-eq-true_iff birlsid s = IsNumeric-iff s
