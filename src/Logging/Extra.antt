-- ===== src/Logging/Extra.antt =====
-- What each line of the log carries of its request: `get_context` and the patched `logger` of
-- app/logging/logging_config.py.
use va_enp_api.Prelude.{
  String, ◌≡◌, refl, ◌∙◌, ap, Bool, false, ◌||◌, Option, none, some, List, [], ◌∷◌, ◌++◌, is_some,
  inl, inr, Bool-cases, str_eq, if◌then◌else◌,
}
use va_enp_api.Effects.{Exception, type_error, Result, ok, err}
use va_enp_api.Logging.Hex.{SpanContext, get_trace_context}

-- A dictionary: the first entry of a key counts.
abbrev pub Entries : Type 0
Entries = List (String × String)

abbrev pub find : String → Entries → Option String
find key [] = none
find key ((k, v) ∷ entries) = if str_eq key k then some v else find key entries

-- `context.data`, or an empty dictionary where there is no context.
abbrev pub get_context : Option Entries → Entries
get_context none = []
get_context (some entries) = entries

abbrev shares_key : Entries → Entries → Bool
shares_key [] b = false
shares_key ((k, v) ∷ a) b = is_some (find k b) || shares_key a b

-- `**a, **b` in a call: a key may be given once.
abbrev keywords : Entries → Entries → Result Exception Entries
keywords a b = if shares_key b a then err type_error else ok (a ++ b)

abbrev pub trace_entries : String × String → Entries
trace_entries (trace_id, span_id) = ("trace_id", trace_id) ∷ ("span_id", span_id) ∷ []

-- `extra.update(…)`
abbrev updated : Entries → Result Exception Entries → Result Exception Entries
updated extra (err x) = err x
updated extra (ok given) = ok (given ++ extra)

unfoldable pub patched : Entries → Option Entries → Option SpanContext → Result Exception Entries
unfolding get_trace_context
patched extra context span =
    updated extra (keywords (get_context context) (trace_entries (get_trace_context span)))

abbrev pub or_else : Option String → Option String → Option String
or_else none b = b
or_else (some a) b = some a

find-append : (key : String) (a b : Entries) → find key (a ++ b) ≡ or_else (find key a) (find key b)
find-append key [] b = refl
find-append key ((k, v) ∷ a) b = elim (Bool-cases (str_eq key k)) [
  | inl e ↦ rw e refl
  | inr e ↦ rw e (find-append key a b)
]

or_else_assoc : (a b c : Option String) → or_else (or_else a b) c ≡ or_else a (or_else b c)
or_else_assoc none b c = refl
or_else_assoc (some v) b c = refl

-- If the request's context has no entry named as one of the two of the trace, its line is written,
-- and what it carries under any name is the context's entry, or else the trace's, or else its own.
pub patched_carries :
    (extra : Entries) (context : Option Entries) (span : Option SpanContext)
    → find "trace_id" (get_context context) ≡ none
    → find "span_id" (get_context context) ≡ none
    → (e : Entries) × (patched extra context span ≡ ok e)
      × ((key : String)
          → find key e
            ≡ or_else
                (find key (get_context context))
                (or_else (find key (trace_entries (get_trace_context span))) (find key extra)))
unfolding patched
patched_carries extra context span t s =
    let c = get_context context in
    let trace = trace_entries (get_trace_context span) in
    (
      (c ++ trace) ++ extra,
      rw (t, s) refl,
      λ key.
          find-append key (c ++ trace) extra
          ∙ ap (λ o. or_else o (find key extra)) (find-append key c trace)
          ∙ or_else_assoc (find key c) (find key trace) (find key extra),
    )

-- A context with an entry of the trace's name makes every log line of its request a `TypeError`.
pub patched_clash :
    (extra context : Entries) (span : Option SpanContext) (value : String)
    → find "trace_id" context ≡ some value
    → patched extra (some context) span ≡ err type_error
unfolding patched
patched_clash extra context span value h = rw h refl
