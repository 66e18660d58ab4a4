-- ===== src/V3/Parts.antt =====
-- The parts of an ARN between its slashes, of which create_device_registration of
-- app/v3/device_registrations/rest.py takes the last.
use Prim.Native.Char.{Char, code}
use Prim.Native.String
use Prim.Native.String.{String}
use text.Mathlib.TextLemmas.{nil-append, cons-append, append_assoc}
use text.Mathlib.TextEquality.{Char-path}
use va_enp_api.Prelude.{
  ◌==◌, ◌≡◌, ◌≢◌, refl, sym, ap, subst, ◌∙◌, List, [], ◌∷◌, if◌then◌else◌, arith, Bool-cases, inl,
  inr,
}
use va_enp_api.Effects.{Exception, index_error, Result, ok, err}
use va_enp_api.Auth.Secrets.{Lacks}

abbrev pub onto_first : Char → List String → List String
onto_first c [] = String.◌∷◌ c "" ∷ []
onto_first c (part ∷ parts) = String.◌∷◌ c part ∷ parts

-- `s.split('/')`
abbrev pub split_path : String → List String
split_path String.[] = "" ∷ []
split_path (String.◌∷◌ c s) =
    let parts = split_path s in if code c == b'/' then "" ∷ parts else onto_first c parts

-- `parts[-1]`
abbrev pub last_of : List String → Result Exception String
last_of [] = err index_error
last_of (part ∷ []) = ok part
last_of (part ∷ next ∷ parts) = last_of (next ∷ parts)

-- `part` holds no slash and is the whole text, or what follows some slash.
pub data IsLastPart : String → String → Type 0 where
  whole : {part : String} → Lacks b'/' part → IsLastPart part part
  after_slash :
      {text part : String} (before : String)
      → text ≡ String.◌++◌ before (String.◌∷◌ "/" part)
      → Lacks b'/' part
      → IsLastPart text part

-- The parts of a text, none with a slash.
data Splits : String → List String → Type 0 where
  one : {text : String} → Lacks b'/' text → Splits text (text ∷ [])
  more :
      {text : String} {parts : List String} (part rest : String)
      → text ≡ String.◌++◌ part (String.◌∷◌ "/" rest)
      → Lacks b'/' part
      → Splits rest parts
      → Splits text (part ∷ parts)

onto_first-Splits :
    (c : Char) (text : String) (parts : List String)
    → code c ≢ b'/'
    → Splits text parts
    → Splits (String.◌∷◌ c text) (onto_first c parts)
onto_first-Splits c text _ other (one lacks) = one (other, lacks)
onto_first-Splits c text _ other (more part rest e lacks splits) =
    more (String.◌∷◌ c part) rest
      (ap (String.◌∷◌ c) e ∙ sym (cons-append c part (String.◌∷◌ "/" rest))) (other, lacks) splits

split_path-Splits : (s : String) → Splits s (split_path s)
split_path-Splits String.[] = one tt
split_path-Splits (String.◌∷◌ c s) = elim (Bool-cases (code c == b'/')) [
  | inl e ↦ rw e (
      more "" s
        (ap (λ d. String.◌∷◌ d s) (Char-path c "/" (ground arith))
          ∙ sym (nil-append (String.◌∷◌ "/" s)))
        tt (split_path-Splits s))
  | inr e ↦ rw e (onto_first-Splits c s (split_path s) (ground arith) (split_path-Splits s))
]

prepended-IsLastPart :
    (part rest text last : String)
    → text ≡ String.◌++◌ part (String.◌∷◌ "/" rest)
    → IsLastPart rest last
    → IsLastPart text last
prepended-IsLastPart part rest text _ e (whole lacks) = after_slash part e lacks
prepended-IsLastPart part rest text last e (after_slash before e' lacks) =
    after_slash (String.◌++◌ part (String.◌∷◌ "/" before))
      (e
        ∙ ap (λ r. String.◌++◌ part (String.◌∷◌ "/" r)) e'
        ∙ ap (String.◌++◌ part) (sym (cons-append "/" before (String.◌∷◌ "/" last)))
        ∙ sym (append_assoc part (String.◌∷◌ "/" before) (String.◌∷◌ "/" last)))
      lacks

equal-IsLastPart : {text last : String} → Lacks b'/' text → text ≡ last → IsLastPart text last
equal-IsLastPart {text} lacks e = subst (λ r. IsLastPart text r) e (whole lacks)

Splits-IsLastPart :
    {text : String} {parts : List String} (last : String)
    → Splits text parts
    → last_of parts ≡ ok last
    → IsLastPart text last
Splits-IsLastPart last (one lacks) h = equal-IsLastPart lacks cc
Splits-IsLastPart last (more part rest e lacks (one k)) h =
    prepended-IsLastPart part rest _ last e (equal-IsLastPart k cc)
Splits-IsLastPart last (more part rest e lacks (more p r e' l' splits)) h =
    prepended-IsLastPart part rest _ last e (Splits-IsLastPart last (more p r e' l' splits) h)

pub last_of-IsLastPart : (s last : String) → last_of (split_path s) ≡ ok last → IsLastPart s last
last_of-IsLastPart s last h = Splits-IsLastPart last (split_path-Splits s) h

Splits-last_of :
    {text : String} {parts : List String}
    → Splits text parts
    → (last : String) × (last_of parts ≡ ok last)
Splits-last_of (one lacks) = (_, refl)
Splits-last_of (more part rest e lacks (one k)) = (_, refl)
Splits-last_of (more part rest e lacks (more p r e' l' splits)) =
    Splits-last_of (more p r e' l' splits)

-- Every text has a last part.
pub last_of_total : (s : String) → (last : String) × (last_of (split_path s) ≡ ok last)
last_of_total s = Splits-last_of (split_path-Splits s)
