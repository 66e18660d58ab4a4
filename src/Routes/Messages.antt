-- ===== src/Routes/Messages.antt =====
-- Which messages the response to an invalid request lists: `request_validation_error_handler` of
-- app/routers.py.
use va_enp_api.Prelude.{
  String, true, false, ◌≡◌, refl, ap, List, [], ◌∷◌, map, is_one_of, str_eq, eq_iff, arith,
  Bool-cases, inl, inr,
}
use va_enp_api.Routes.Handlers.{
  ErrorDetail, error_message, unseen, validation_entry, request_validation_error_handler,
}

-- No message is listed twice.
abbrev pub Distinct : List String → Type 0
Distinct [] = Unit
Distinct (m ∷ ms) = (is_one_of m ms ≡ false) × Distinct ms

-- What was seen is not listed, and of the rest every message.
unseen-seen :
    (m : String) (seen ms : List String)
    → is_one_of m seen ≡ true
    → is_one_of m (unseen seen ms) ≡ false
unseen-seen m seen [] h = refl
unseen-seen m seen (x ∷ xs) h = elim (Bool-cases (is_one_of x seen)) [
  | inl old ↦ let r = unseen-seen m seen xs h in rw old r
  | inr new ↦ elim (Bool-cases (str_eq m x)) [
    | inl same ↦
        absurd (let e = (eq_iff m x).0 same in let k = ap (λ z. is_one_of z seen) e in ground arith)
    | inr other ↦ let r = unseen-seen m (x ∷ seen) xs (rw other h) in rw (new, other) r
  ]
]

unseen-rest :
    (m : String) (seen ms : List String)
    → is_one_of m seen ≡ false
    → is_one_of m (unseen seen ms) ≡ is_one_of m ms
unseen-rest m seen [] h = refl
unseen-rest m seen (x ∷ xs) h = elim (Bool-cases (is_one_of x seen)) [
  | inl old ↦ elim (Bool-cases (str_eq m x)) [
    | inl same ↦
        absurd (let e = (eq_iff m x).0 same in let k = ap (λ z. is_one_of z seen) e in ground arith)
    | inr other ↦ let r = unseen-rest m seen xs h in rw (old, other) r
  ]
  | inr new ↦ elim (Bool-cases (str_eq m x)) [
    | inl same ↦ rw (new, same) refl
    | inr other ↦ let r = unseen-rest m (x ∷ seen) xs (rw other h) in rw (new, other) r
  ]
]

unseen-Distinct : (seen ms : List String) → Distinct (unseen seen ms)
unseen-Distinct seen [] = tt
unseen-Distinct seen (x ∷ xs) = elim (Bool-cases (is_one_of x seen)) [
  | inl old ↦ rw old (unseen-Distinct seen xs)
  | inr new ↦
      let itself = (eq_iff x x).1 refl in
      rw new (unseen-seen x (x ∷ seen) xs (rw itself refl), unseen-Distinct (x ∷ seen) xs)
]

-- The response to an invalid request has status 400 and lists each message of its errors, once, and
-- nothing else.
pub request_validation_error_handler-Distinct :
    (errors : List ErrorDetail)
    → (messages : List String) × (request_validation_error_handler errors
        ≡ record { status_code = 400; errors = map validation_entry messages })
      × Distinct messages
      × ((m : String) → is_one_of m messages ≡ is_one_of m (map error_message errors))
unfolding request_validation_error_handler
request_validation_error_handler-Distinct errors = (
  unseen [] (map error_message errors),
  refl,
  unseen-Distinct [] (map error_message errors),
  λ m. unseen-rest m [] (map error_message errors) refl,
)
