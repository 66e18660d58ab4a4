-- ===== src/Sms/Fields.antt =====
-- The personalisation of a template: `_collect_personalisation_from_template` and
-- `validate_template_personalisation` of app/legacy/v2/notifications/utils.py.
use Prim.Native.Char.{Char, code}
use Prim.Native.Nat.{ℕ, zero, suc, ◌+◌}
use Prim.Native.String.{String}
use va_enp_api.Prelude.{
  Bool, false, ◌&&◌, ◌==◌, Option, none, some, List, [], ◌∷◌, map, f_string, is_one_of,
  if◌then◌else◌,
}
use va_enp_api.Effects.{Exception, http_exception, Result, ok, err}
use va_enp_api.Dao.Rows.{TemplateRow}
use va_enp_api.Dao.Writes.{Personalisation}
use va_enp_api.Auth.Secrets.{text_length}

abbrev pub starts_with : ℕ → String → Bool
starts_with n String.[] = false
starts_with n (String.◌∷◌ c s) = code c == n

abbrev pub prepended : Char → Option String → Option String
prepended c none = none
prepended c (some s) = some (String.◌∷◌ c s)

-- `(.*?)\)\)`: the group is what stands before the first `))`, in one line.
abbrev pub until_close : String → Option String
until_close String.[] = none
until_close (String.◌∷◌ c s) =
    let rest = until_close s in
    if code c == b')' && starts_with b')' s
    then some ""
    else if code c == 10
    then none
    else prepended c rest

-- `\(` and what follows, after a first `\(`.
abbrev pub second_open : String → Option String
second_open String.[] = none
second_open (String.◌∷◌ c s) = if code c == b'(' then until_close s else none

-- `re.findall` from the first character on that it has not passed over yet. A match takes the four
-- parentheses beside its group.
abbrev pub find_all : ℕ → String → List String
find_all skip String.[] = []
find_all (suc n) (String.◌∷◌ c s) = find_all n s
find_all zero (String.◌∷◌ c s) = elim (if code c == b'(' then second_open s else none) [
  | none ↦ find_all zero s
  | some field ↦ field ∷ find_all (text_length field + 3) s
]

-- A set is the list of its elements, in any order and as often as they come.
unfoldable pub collect_personalisation_from_template : String → List String
collect_personalisation_from_template content = find_all 0 content

-- `set(personalisation.keys() if personalisation else [])`
abbrev pub keys_of : Option Personalisation → List String
keys_of none = []
keys_of (some entries) = map (λ e. e.0) entries

-- The difference of two sets.
abbrev pub missing_fields : List String → List String → List String
missing_fields [] keys = []
missing_fields (f ∷ fs) keys =
    let rest = missing_fields fs keys in if is_one_of f keys then rest else f ∷ rest

-- `lower` is `str.lower`; `join` is `', '.join` of a set, in the order in which the set is listed.
module _ (lower : String → String) (join : List String → String) where
  abbrev pub complain : List String → Result Exception (Unit {0})
  complain [] = ok tt
  complain (f ∷ fs) =
      err (http_exception 400 (f_string ("Missing personalisation: " ∷ join (f ∷ fs) ∷ [])))

  unfoldable pub validate_template_personalisation :
      TemplateRow → Option Personalisation → Result Exception (Unit {0})
  unfolding collect_personalisation_from_template
  validate_template_personalisation template personalisation = complain (
      missing_fields (map lower (collect_personalisation_from_template template.content))
        (map lower (keys_of personalisation)))
