-- ===== src/Sms/Marks.antt =====
-- What the loop over the personalisation of a push notification makes of its message:
-- `send_push_notification_helper` of app/legacy/v2/notifications/utils.py.
use Prim.Native.Char.{Char, code}
use Prim.Native.Nat.{ℕ, zero, suc}
use Prim.Native.String
use Prim.Native.String.{String}
use text.Mathlib.TextLemmas.{nil-append, cons-append}
use text.Mathlib.TextEquality.{Char-path}
use va_enp_api.Prelude.{
  Bool, true, false, ◌&&◌, ◌==◌, ◌≡◌, ◌≢◌, refl, sym, subst, ap, ◌∙◌, arith, Bool-cases, inl, inr,
}
use va_enp_api.Auth.Secrets.{text_length, Lacks}
use va_enp_api.Sms.Push.{begins, replace_from, mark}

abbrev pub closing : String → String
closing rest = String.◌∷◌ ")" (String.◌∷◌ ")" rest)

abbrev pub marked : String → String → String
marked field rest = String.◌∷◌ "(" (String.◌∷◌ "(" (String.◌++◌ field (closing rest)))

pub mark-marked : (key : String) → mark key ≡ marked key ""
mark-marked key =
    let name = String.◌++◌ key "))" in
    cons-append "(" "(" name
    ∙ ap (String.◌∷◌ "(") (cons-append "(" "" name ∙ ap (String.◌∷◌ "(") (nil-append name))

same_char : (c : Char) (b : Bool) → (code c == code c && b) ≡ b
same_char c b = let e : (code c == code c) ≡ true = ground arith in rw e refl

begins-empty : (s : String) → begins s "" ≡ true
begins-empty String.[] = refl
begins-empty (String.◌∷◌ c s) = refl

pub begins-append : (s t : String) → begins (String.◌++◌ s t) s ≡ true
begins-append String.[] t = begins-empty (String.◌++◌ "" t)
begins-append (String.◌∷◌ c s) t =
    ap (λ z. begins z (String.◌∷◌ c s)) (cons-append c s t)
    ∙ same_char c (begins (String.◌++◌ s t) s)
    ∙ begins-append s t

pub other_char : (c d : Char) (b : Bool) → code c ≢ code d → (code c == code d && b) ≡ false
other_char c d b n = let e : (code c == code d) ≡ false = ground arith in rw e refl

pub begins-cons :
    (c d : Char) (s t s' t' : String)
    → s ≡ String.◌∷◌ c s'
    → t ≡ String.◌∷◌ d t'
    → begins s t ≡ (code c == code d && begins s' t')
begins-cons c d s t s' t' e f = ap (λ z. begins z t) e ∙ ap (begins (String.◌∷◌ c s')) f

-- Another field than the key does not end where the key ends.
pub begins-field :
    (field key rest : String)
    → Lacks b')' field
    → Lacks b')' key
    → field ≢ key
    → begins (String.◌++◌ field (closing rest)) (String.◌++◌ key (closing "")) ≡ false
begins-field String.[] String.[] rest lf lk other = absurd (other refl)
begins-field String.[] (String.◌∷◌ k ks) rest lf (n, lk) other =
    begins-cons ")" k _ _ _ _ (nil-append (closing rest)) (cons-append k ks (closing ""))
    ∙ other_char ")" k _ (λ e. n (sym e))
begins-field (String.◌∷◌ c cs) String.[] rest (n, lf) lk other =
    begins-cons c ")" _ _ _ _ (cons-append c cs (closing rest)) (nil-append (closing ""))
    ∙ other_char c ")" _ n
begins-field (String.◌∷◌ c cs) (String.◌∷◌ k ks) rest (n, lf) (m, lk) other =
    begins-cons c k _ _ _ _ (cons-append c cs (closing rest)) (cons-append k ks (closing ""))
    ∙ elim (Bool-cases (code c == code k)) [
      | inl e ↦
          let same = Char-path c k (ground arith) in
          let differ : cs ≢ ks =
            λ h. other (ap (String.◌∷◌ c) h ∙ ap (λ d. String.◌∷◌ d ks) same) in
          let rest_differs = begins-field cs ks rest lf lk differ in rw e rest_differs
      | inr e ↦ rw e refl
    ]

-- Characters that are passed over.
pub replace_from-skip :
    (old new s rest : String) (n : ℕ)
    → n ≡ text_length s
    → replace_from old new n (String.◌++◌ s rest) ≡ replace_from old new 0 rest
replace_from-skip old new String.[] rest n h =
    subst (λ k. replace_from old new k (String.◌++◌ "" rest) ≡ replace_from old new 0 rest) (sym h)
      (ap (replace_from old new 0) (nil-append rest))
replace_from-skip old new (String.◌∷◌ c s) rest zero h = absurd (omega (arith, h))
replace_from-skip old new (String.◌∷◌ c s) rest (suc n) h =
    ap (replace_from old new (suc n)) (cons-append c s rest)
    ∙ replace_from-skip old new s rest n (omega (arith, h))
