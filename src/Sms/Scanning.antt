-- ===== src/Sms/Scanning.antt =====
-- What `_collect_personalisation_from_template` of app/legacy/v2/notifications/utils.py finds.
use Prim.Native.Nat.{ℕ, zero, suc, ◌+◌}
use Prim.Native.String
use Prim.Native.String.{String}
use text.Mathlib.TextLemmas.{nil-append, cons-append}
use va_enp_api.Prelude.{◌≡◌, refl, ap, ◌∙◌, none, some, List, [], ◌∷◌, map, arith, All}
use va_enp_api.Auth.Secrets.{text_length, Lacks}
use va_enp_api.Sms.Fields.{until_close, find_all, collect_personalisation_from_template}

-- A template as text with fields in it: each piece is some text and the name of the field behind it.
pub record Piece : Type 0 where
  pub plain : String
  pub field : String

abbrev pub written : Piece → String → String
written p rest =
    String.◌++◌ p.plain
      (String.◌∷◌ "(" (String.◌∷◌ "(" (String.◌++◌ p.field (String.◌∷◌ ")" (String.◌∷◌ ")" rest)))))

abbrev pub template_of : List Piece → String → String
template_of [] end = end
template_of (p ∷ ps) end = written p (template_of ps end)

-- No parenthesis opens in the text, and in the name none closes and no line ends.
pub record IsPlain (p : Piece) : Type 0 where
  pub no_opening : Lacks b'(' p.plain
  pub no_closing : Lacks b')' p.field
  pub one_line : Lacks 10 p.field

until_close-field :
    (field rest : String)
    → Lacks b')' field
    → Lacks 10 field
    → until_close (String.◌++◌ field (String.◌∷◌ ")" (String.◌∷◌ ")" rest))) ≡ some field
until_close-field String.[] rest closing line =
    rw (nil-append (String.◌∷◌ ")" (String.◌∷◌ ")" rest))) refl
until_close-field (String.◌∷◌ c s) rest (other, closing) (no_end, line) =
    let h = until_close-field s rest closing line in
    ap until_close (cons-append c s (String.◌∷◌ ")" (String.◌∷◌ ")" rest))) ∙ ground arith

find_all-skip :
    (s rest : String) (n : ℕ)
    → n ≡ text_length s
    → find_all n (String.◌++◌ s rest) ≡ find_all 0 rest
find_all-skip String.[] rest n h = rw (h, nil-append rest) refl
find_all-skip (String.◌∷◌ c s) rest zero h = absurd (omega (arith, h))
find_all-skip (String.◌∷◌ c s) rest (suc n) h =
    ap (find_all (suc n)) (cons-append c s rest) ∙ find_all-skip s rest n (omega (arith, h))

abbrev closed : String → String → String
closed field rest = String.◌++◌ field (String.◌∷◌ ")" (String.◌∷◌ ")" rest))

skip-field :
    (field rest : String)
    → find_all (text_length field + 3) (String.◌∷◌ "(" (closed field rest)) ≡ find_all 0 rest
skip-field field rest =
    let next : text_length field + 3 ≡ suc (text_length field + 2) = omega arith in
    ap (λ n. find_all n (String.◌∷◌ "(" (closed field rest))) next
    ∙ go field (text_length field + 2) refl
  where
    go : (s : String) (n : ℕ) → n ≡ text_length s + 2 → find_all n (closed s rest) ≡ find_all 0 rest
    go String.[] zero h = absurd (omega (arith, h))
    go String.[] (suc zero) h = absurd (omega (arith, h))
    go String.[] (suc (suc zero)) h =
        ap (find_all 2) (nil-append (String.◌∷◌ ")" (String.◌∷◌ ")" rest)))
    go String.[] (suc (suc (suc n))) h = absurd (omega (arith, h))
    go (String.◌∷◌ c s) zero h = absurd (omega (arith, h))
    go (String.◌∷◌ c s) (suc n) h =
        ap (find_all (suc n)) (cons-append c s (String.◌∷◌ ")" (String.◌∷◌ ")" rest)))
        ∙ go s n (omega (arith, h))

find_all-field :
    (field rest : String)
    → Lacks b')' field
    → Lacks 10 field
    → find_all 0 (String.◌∷◌ "(" (String.◌∷◌ "(" (closed field rest))) ≡ field ∷ find_all 0 rest
find_all-field field rest closing line =
    let h = until_close-field field rest closing line in
    let k = skip-field field rest in
    ap
      (λ o. elim o [
        | none ↦ find_all 0 (String.◌∷◌ "(" (closed field rest))
        | some f ↦ f ∷ find_all (text_length f + 3) (String.◌∷◌ "(" (closed field rest))
      ])
      h
    ∙ ap (λ l. field ∷ l) k

find_all-plain :
    (plain rest : String) → Lacks b'(' plain → find_all 0 (String.◌++◌ plain rest) ≡ find_all 0 rest
find_all-plain String.[] rest opening = ap (find_all 0) (nil-append rest)
find_all-plain (String.◌∷◌ c s) rest (other, opening) =
    let h = find_all-plain s rest opening in ap (find_all 0) (cons-append c s rest) ∙ ground arith

find_all-end : (s : String) → Lacks b'(' s → find_all 0 s ≡ []
find_all-end String.[] opening = refl
find_all-end (String.◌∷◌ c s) (other, opening) = let h = find_all-end s opening in ground arith

-- What is found in a template that is written as texts with fields in double parentheses are the
-- names of its fields, in order, if no parenthesis opens in a text, and none closes and no line
-- ends in a name.
pub collect_personalisation_from_template-template_of :
    (pieces : List Piece) (end : String)
    → All IsPlain pieces
    → Lacks b'(' end
    → collect_personalisation_from_template (template_of pieces end) ≡ map (λ p. p.field) pieces
unfolding collect_personalisation_from_template
collect_personalisation_from_template-template_of [] end plain opening = find_all-end end opening
collect_personalisation_from_template-template_of (p ∷ ps) end (h, plain) opening =
    find_all-plain p.plain (String.◌∷◌ "(" (String.◌∷◌ "(" (closed p.field (template_of ps end))))
      h.no_opening
    ∙ find_all-field p.field (template_of ps end) h.no_closing h.one_line
    ∙ ap (λ l. p.field ∷ l) (collect_personalisation_from_template-template_of ps end plain opening)
