-- ===== src/Db/Uris.antt =====
-- The addresses of the databases: app/db/__init__.py.
use Prim.Native.Char.{code}
use Prim.Native.String
use Prim.Native.String.{String}
use text.Mathlib.TextLemmas.{nil-append, cons-append}
use va_enp_api.Prelude.{
  ◌&&◌, ◌==◌, ◌≡◌, refl, ap, ◌∙◌, Option, none, some, [], ◌∷◌, f_string, arith, if◌then◌else◌,
  Option-cases, inl, inr,
}
use va_enp_api.Effects.{Exception, index_error, Result, ok, err}
use va_enp_api.Auth.Secrets.{Lacks}

abbrev pub db_engine : String
db_engine = "postgresql+psycopg"

-- What follows `//`.
abbrev pub after_slashes : String → Option String
after_slashes (String.◌∷◌ c (String.◌∷◌ d s)) =
    if code c == b'/' && code d == b'/' then some s else none
after_slashes s = none

-- The rest of a text that starts with `://`.
abbrev pub after_mark : String → Option String
after_mark String.[] = none
after_mark (String.◌∷◌ c s) = if code c == b':' then after_slashes s else none

-- What follows the first `://`.
abbrev pub after_separator : String → Option String
after_separator String.[] = none
after_separator (String.◌∷◌ c s) =
    let later = after_separator s in
    elim (after_mark (String.◌∷◌ c s)) [ none ↦ later | some rest ↦ some rest ]

-- What stands before it, or the whole text.
abbrev pub until_separator : String → String
until_separator String.[] = ""
until_separator (String.◌∷◌ c s) =
    let later = until_separator s in
    elim (after_mark (String.◌∷◌ c s)) [ none ↦ String.◌∷◌ c later | some rest ↦ "" ]

-- `DB_ENGINE + '://' + uri.split('://')[1]`
unfoldable pub napi_db_uri : String → Result Exception String
napi_db_uri uri = elim (after_separator uri) [
  | none ↦ err index_error
  | some rest ↦ ok (f_string (db_engine ∷ "://" ∷ until_separator rest ∷ []))
]

abbrev pub marked : String → String
marked rest = String.◌∷◌ ":" (String.◌∷◌ "/" (String.◌∷◌ "/" rest))

after_separator-marked :
    (scheme rest : String)
    → Lacks b':' scheme
    → after_separator (String.◌++◌ scheme (marked rest)) ≡ some rest
after_separator-marked String.[] rest h = rw (nil-append (marked rest)) refl
after_separator-marked (String.◌∷◌ c s) rest (other, h) =
    let later = after_separator-marked s rest h in
    ap after_separator (cons-append c s (marked rest)) ∙ ground arith

until_separator-whole : (s : String) → after_separator s ≡ none → until_separator s ≡ s
until_separator-whole String.[] h = refl
until_separator-whole (String.◌∷◌ c s) h = elim (Option-cases (after_mark (String.◌∷◌ c s))) [
  | inl e ↦ let later = until_separator-whole s (ground arith) in ground arith
  | inr (rest, e) ↦ absurd (ground arith)
]

-- An address with a scheme gets the scheme of the engine and is otherwise the same, if `://` stands
-- in it once.
pub napi_db_uri-marked :
    (scheme rest : String)
    → Lacks b':' scheme
    → after_separator rest ≡ none
    → napi_db_uri (String.◌++◌ scheme (marked rest)) ≡ ok (f_string (db_engine ∷ "://" ∷ rest ∷ []))
unfolding napi_db_uri
napi_db_uri-marked scheme rest h once =
    let found = after_separator-marked scheme rest h in
    let all = until_separator-whole rest once in ground arith
