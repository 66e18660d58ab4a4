-- ===== src/Sms/Personalising.antt =====
-- When the personalisation of a request is complete: `validate_template_personalisation` of
-- app/legacy/v2/notifications/utils.py.
use mathlib.Core.List.Memᴰ
use va_enp_api.Prelude.{
  String, true, ◌≡◌, ◌↔◌, refl, sym, ap, ◌∙◌, Option, List, [], ◌∷◌, map, Memᴰ, is_one_of, All,
  arith, Bool-cases, inl, inr, eq_iff, str_eq,
}
use va_enp_api.Effects.{ok}
use va_enp_api.Dao.Rows.{TemplateRow}
use va_enp_api.Dao.Writes.{Personalisation}
use va_enp_api.Sms.Fields.{
  keys_of, missing_fields, validate_template_personalisation, collect_personalisation_from_template,
  complain,
}

module _ (lower : String → String) where
  -- Some key is the field, but for the case of letters.
  abbrev pub IsGiven : List String → String → Type 0
  IsGiven keys field = (key : String) × Memᴰ key keys × (lower key ≡ lower field)

  is_given :
      (keys : List String) (field : String)
      → is_one_of (lower field) (map lower keys) ≡ true
      → IsGiven keys field
  is_given [] field h = absurd (ground arith)
  is_given (k ∷ ks) field h = elim (Bool-cases (str_eq (lower field) (lower k))) [
    | inl same ↦ (k, Memᴰ.head refl, sym ((eq_iff (lower field) (lower k)).0 same))
    | inr other ↦
        let (key, there, same) = is_given ks field (ground arith) in (key, Memᴰ.tail there, same)
  ]

  given-is_one_of :
      (keys : List String) (field key : String)
      → Memᴰ key keys
      → lower key ≡ lower field
      → is_one_of (lower field) (map lower keys) ≡ true
  given-is_one_of [] field key there same = absurd (Memᴰ.not-nil there)
  given-is_one_of (k ∷ ks) field key (Memᴰ.head e) same =
      let h = (eq_iff (lower field) (lower k)).1 (sym same ∙ ap lower e) in rw h refl
  given-is_one_of (k ∷ ks) field key (Memᴰ.tail there) same =
      let h = given-is_one_of ks field key there same in ground arith

  none_missing :
      (keys fields : List String)
      → missing_fields (map lower fields) (map lower keys) ≡ []
      → All (IsGiven keys) fields
  none_missing keys [] h = tt
  none_missing keys (f ∷ fs) h = elim (Bool-cases (is_one_of (lower f) (map lower keys))) [
    | inl given ↦ (is_given keys f given, none_missing keys fs (ground arith))
    | inr missing ↦ absurd (ground arith)
  ]

  All-missing_fields :
      (keys fields : List String)
      → All (IsGiven keys) fields
      → missing_fields (map lower fields) (map lower keys) ≡ []
  All-missing_fields keys [] h = refl
  All-missing_fields keys (f ∷ fs) ((key, there, same), rest) =
      let h = given-is_one_of keys f key there same in rw h (All-missing_fields keys fs rest)

  complain-ok :
      (join : List String → String) (fields : List String)
      → complain lower join fields ≡ ok tt
      → fields ≡ []
  complain-ok join [] h = refl
  complain-ok join (f ∷ fs) h = absurd (ground arith)

  -- The personalisation is accepted exactly when each field of the template is one of its keys, but
  -- for the case of letters.
  pub validate_template_personalisation-ok_iff :
      (join : List String → String) (template : TemplateRow)
      (personalisation : Option Personalisation)
      → (validate_template_personalisation lower join template personalisation ≡ ok tt)
        ↔ All
            (IsGiven (keys_of personalisation))
            (collect_personalisation_from_template template.content)
  unfolding validate_template_personalisation
  validate_template_personalisation-ok_iff join template personalisation =
      let fields = collect_personalisation_from_template template.content in
      let keys = keys_of personalisation in
      (
        λ h.
            none_missing keys fields
              (complain-ok join (missing_fields (map lower fields) (map lower keys)) h),
        λ h. ap (complain lower join) (All-missing_fields keys fields h),
      )
