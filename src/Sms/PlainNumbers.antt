-- ===== src/Sms/PlainNumbers.antt =====
-- Which telephone numbers pass `_vanity_check` of app/legacy/v2/notifications/route_schema.py.
use Prim.Native.Char.{Char, code}
use Prim.Native.String
use Prim.Native.String.{String}
use text.Mathlib.TextLemmas.{nil-append, cons-append}
use va_enp_api.Prelude.{
  Bool, true, false, ◌||◌, ◌==◌, ◌≡◌, ◌↔◌, refl, sym, subst, ap, ◌∙◌, arith, Bool-cases, inl, inr,
}
use va_enp_api.Effects.{ok}
use va_enp_api.Sms.Vanity.{
  is_letter, has_letter, is_extension, end_of, without_extension, vanity_check,
}

or-eq-false : (a b : Bool) → (a || b) ≡ false → (a ≡ false) × (b ≡ false)
or-eq-false false false h = (refl, refl)
or-eq-false false true h = absurd (ground arith)
or-eq-false true b h = absurd (ground arith)

eq-false-or : {a b : Bool} → a ≡ false → b ≡ false → (a || b) ≡ false
eq-false-or h k = rw (h, k) refl

end_of-has_letter : (s : String) → has_letter (end_of s) ≡ false
end_of-has_letter String.[] = refl
end_of-has_letter (String.◌∷◌ c String.[]) = elim (Bool-cases (code c == 10)) [
  | inl e ↦
      let newline : code c ≡ 10 = ground arith in
      ap has_letter (kept c e) ∙ eq-false-or (not_letter c newline) refl
  | inr e ↦ ap has_letter (lost c e)
]
  where
    kept : (c : Char) → (code c == 10) ≡ true → end_of (String.◌∷◌ c "") ≡ String.◌∷◌ c ""
    kept c e = rw e refl

    lost : (c : Char) → (code c == 10) ≡ false → end_of (String.◌∷◌ c "") ≡ ""
    lost c e = rw e refl

    not_letter : (c : Char) → code c ≡ 10 → is_letter c ≡ false
    not_letter c e = rw (is_letter, e) refl
end_of-has_letter (String.◌∷◌ c (String.◌∷◌ d s)) = end_of-has_letter (String.◌∷◌ d s)

module _ (is_space is_decimal : Char → Bool) (same_letter : (letter c : Char) → Bool) where
  -- A text without letters, or such a text before an extension.
  pub data IsPlainNumber : String → Type 0 where
    no_letters : {s : String} → has_letter s ≡ false → IsPlainNumber s
    with_extension :
        {s : String} (base extension : String)
        → s ≡ String.◌++◌ base extension
        → has_letter base ≡ false
        → is_extension is_space is_decimal same_letter extension ≡ true
        → IsPlainNumber s

  shorter : String → String
  shorter = without_extension is_space is_decimal same_letter

  shorter_at :
      (c : Char) (s : String)
      → is_extension is_space is_decimal same_letter (String.◌∷◌ c s) ≡ true
      → has_letter (shorter (String.◌∷◌ c s)) ≡ false
  unfolding shorter
  shorter_at c s e = rw e (end_of-has_letter (String.◌∷◌ c s))

  shorter_before :
      (c : Char) (s : String)
      → is_extension is_space is_decimal same_letter (String.◌∷◌ c s) ≡ false
      → shorter (String.◌∷◌ c s) ≡ String.◌∷◌ c (shorter s)
  unfolding shorter
  shorter_before c s e = rw e refl

  shorter-IsPlainNumber : (s : String) → has_letter (shorter s) ≡ false → IsPlainNumber s
  shorter-IsPlainNumber String.[] h = no_letters refl
  shorter-IsPlainNumber (String.◌∷◌ c s) h =
      elim (Bool-cases (is_extension is_space is_decimal same_letter (String.◌∷◌ c s))) [
        | inl e ↦ with_extension "" (String.◌∷◌ c s) (sym (nil-append (String.◌∷◌ c s))) refl e
        | inr e ↦
            let kept = shorter_before c s e in
            let (first, rest) =
              or-eq-false (is_letter c) (has_letter (shorter s)) (sym (ap has_letter kept) ∙ h) in
            one_more c s first (shorter-IsPlainNumber s rest)
      ]
    where
      one_more :
          (c : Char) (s : String)
          → is_letter c ≡ false
          → IsPlainNumber s
          → IsPlainNumber (String.◌∷◌ c s)
      one_more c s first (no_letters h) = no_letters (eq-false-or first h)
      one_more c s first (with_extension base extension e h x) =
          with_extension (String.◌∷◌ c base) extension
            (ap (String.◌∷◌ c) e ∙ sym (cons-append c base extension)) (eq-false-or first h) x

  without_letters : (s : String) → has_letter s ≡ false → has_letter (shorter s) ≡ false
  unfolding shorter
  without_letters String.[] h = refl
  without_letters (String.◌∷◌ c s) h =
      elim (Bool-cases (is_extension is_space is_decimal same_letter (String.◌∷◌ c s))) [
        | inl e ↦ shorter_at c s e
        | inr e ↦
            let (first, rest) = or-eq-false (is_letter c) (has_letter s) h in
            ap has_letter (shorter_before c s e) ∙ eq-false-or first (without_letters s rest)
      ]

  before_extension :
      (base extension : String)
      → has_letter base ≡ false
      → is_extension is_space is_decimal same_letter extension ≡ true
      → has_letter (shorter (String.◌++◌ base extension)) ≡ false
  before_extension String.[] String.[] h x = absurd (ground arith)
  before_extension String.[] (String.◌∷◌ c s) h x =
      ap (λ z. has_letter (shorter z)) (nil-append (String.◌∷◌ c s)) ∙ shorter_at c s x
  before_extension (String.◌∷◌ c s) extension h x =
      ap (λ z. has_letter (shorter z)) (cons-append c s extension)
      ∙ elim (Bool-cases
          (is_extension is_space is_decimal same_letter (String.◌∷◌ c (String.◌++◌ s extension)))) [
            | inl e ↦ shorter_at c (String.◌++◌ s extension) e
            | inr e ↦
                let (first, rest) = or-eq-false (is_letter c) (has_letter s) h in
                ap has_letter (shorter_before c (String.◌++◌ s extension) e)
                ∙ eq-false-or first (before_extension s extension rest x)
          ]

  IsPlainNumber-shorter : (s : String) → IsPlainNumber s → has_letter (shorter s) ≡ false
  IsPlainNumber-shorter s (no_letters h) = without_letters s h
  IsPlainNumber-shorter s (with_extension base extension e h x) =
      subst (λ z. has_letter (shorter z) ≡ false) (sym e) (before_extension base extension h x)

  -- `_vanity_check` returns its argument if and only if that has no letter, or is a text without a
  -- letter before what the pattern of an extension matches; it returns nothing else.
  pub vanity_check-ok_iff :
      (s r : String)
      → (vanity_check is_space is_decimal same_letter s ≡ ok r) ↔ (IsPlainNumber s × (s ≡ r))
  unfolding vanity_check shorter
  vanity_check-ok_iff s r = elim (Bool-cases (has_letter (shorter s))) [
    | inl e ↦ (
      λ h. absurd (ground arith),
      λ h. absurd (let plain = IsPlainNumber-shorter s h.0 in ground arith),
    )
    | inr e ↦ (λ h. (shorter-IsPlainNumber s e, ground arith), λ h. ground arith)
  ]
