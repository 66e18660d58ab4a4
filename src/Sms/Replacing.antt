-- ===== src/Sms/Replacing.antt =====
-- That the loop over the personalisation of a push notification fills in its message:
-- `send_push_notification_helper` of app/legacy/v2/notifications/utils.py.
use Prim.Native.Char.{Char}
use Prim.Native.Nat.{◌-◌}
use Prim.Native.String
use Prim.Native.String.{String}
use text.Mathlib.TextLemmas.{nil-append, cons-append, append_assoc}
use va_enp_api.Prelude.{true, false, ◌≡◌, ◌≢◌, refl, sym, ap, ◌∙◌, arith}
use va_enp_api.Auth.Secrets.{text_length, Lacks}
use va_enp_api.Sms.Push.{begins, replace_from}
use va_enp_api.Sms.Marks.{
  closing, marked, begins-append, begins-field, other_char, replace_from-skip,
}

replace_here :
    (old new s : String) (c : Char)
    → begins (String.◌∷◌ c s) old ≡ true
    → replace_from old new 0 (String.◌∷◌ c s)
      ≡ String.◌++◌ new (replace_from old new (text_length old - 1) s)
replace_here old new s c e = rw e refl

replace_later :
    (old new s : String) (c : Char)
    → begins (String.◌∷◌ c s) old ≡ false
    → replace_from old new 0 (String.◌∷◌ c s) ≡ String.◌∷◌ c (replace_from old new 0 s)
replace_later old new s c e = rw e refl

module _ (key value : String) where
  unfoldable pub replaced : String → String
  replaced = replace_from (marked key "") value 0

  pub replaced_plain :
      (s rest : String)
      → Lacks b'(' s
      → replaced (String.◌++◌ s rest) ≡ String.◌++◌ s (replaced rest)
  unfolding replaced
  replaced_plain String.[] rest h = ap replaced (nil-append rest) ∙ sym (nil-append (replaced rest))
  replaced_plain (String.◌∷◌ c s) rest (n, h) =
      ap replaced (cons-append c s rest)
      ∙ replace_later (marked key "") value (String.◌++◌ s rest) c (other_char c "(" _ n)
      ∙ ap (String.◌∷◌ c) (replaced_plain s rest h)
      ∙ sym (cons-append c s (replaced rest))

  closing-append : (rest : String) → String.◌++◌ (closing "") rest ≡ closing rest
  closing-append rest =
      cons-append ")" ")" rest
      ∙ ap (String.◌∷◌ ")") (cons-append ")" "" rest ∙ ap (String.◌∷◌ ")") (nil-append rest))

  tail_of : String → String
  tail_of rest = String.◌∷◌ "(" (String.◌++◌ key (closing rest))

  tail_of-append : (rest : String) → String.◌++◌ (tail_of "") rest ≡ tail_of rest
  unfolding tail_of
  tail_of-append rest =
      cons-append "(" (String.◌++◌ key (closing "")) rest
      ∙ ap (String.◌∷◌ "(")
          (append_assoc key (closing "") rest ∙ ap (String.◌++◌ key) (closing-append rest))

  pub replaced_same :
      (rest : String) → replaced (marked key rest) ≡ String.◌++◌ value (replaced rest)
  unfolding replaced tail_of
  replaced_same rest =
      replace_here (marked key "") value (tail_of rest) "(" (
        ap (λ z. begins z (tail_of "")) (sym (tail_of-append rest))
        ∙ begins-append (tail_of "") rest)
      ∙ ap (String.◌++◌ value) (
          ap (replace_from (marked key "") value (text_length (marked key "") - 1))
            (sym (tail_of-append rest))
          ∙ replace_from-skip (marked key "") value (tail_of "") rest
              (text_length (marked key "") - 1) (omega arith))

  opening_field :
      (field rest t : String)
      → Lacks b'(' field
      → begins (String.◌++◌ field (closing rest)) (String.◌∷◌ "(" t) ≡ false
  opening_field String.[] rest t h =
      ap (λ z. begins z (String.◌∷◌ "(" t)) (nil-append (closing rest))
  opening_field (String.◌∷◌ c s) rest t (n, h) =
      ap (λ z. begins z (String.◌∷◌ "(" t)) (cons-append c s (closing rest)) ∙ other_char c "(" _ n

  pub replaced_other :
      (field rest : String)
      → Lacks b'(' field
      → Lacks b')' field
      → Lacks b')' key
      → field ≢ key
      → replaced (marked field rest) ≡ marked field (replaced rest)
  unfolding replaced
  replaced_other field rest opens closes key_closes other =
      replace_later (marked key "") value (String.◌∷◌ "(" (String.◌++◌ field (closing rest))) "("
        (begins-field field key rest closes key_closes other)
      ∙ ap (String.◌∷◌ "(") (
          replace_later (marked key "") value (String.◌++◌ field (closing rest)) "("
            (opening_field field rest _ opens)
          ∙ ap (String.◌∷◌ "(") (replaced_plain field (closing rest) opens))
