-- ===== src/Logging/Routing.antt =====
-- Where a record of Python's own loggers goes: `InterceptHandler.emit` and `customize_logging` of
-- app/logging/logging_config.py.
use va_enp_api.Prelude.{ℕ, String, ◌≡◌, refl, false, str_eq, some, List, [], ◌∷◌}
use va_enp_api.Effects.{ok}
use va_enp_api.Logging.Levels.{loguru_levels, Sink, stdout, stderr, takes, written_to, Line, emit}

-- The levels that Python's loggers have by default, with the sink for each.
pub data Standard : String → ℕ → Sink → Type 0 where
  debug : Standard "DEBUG" 10 stdout
  info : Standard "INFO" 20 stdout
  warning : Standard "WARNING" 30 stdout
  error : Standard "ERROR" 40 stderr
  critical : Standard "CRITICAL" 50 stderr

-- A record of one of Python's five levels whose text can be made is handed on as one line of that
-- level, with its message, and exactly one sink writes it: the standard output up to WARNING, the
-- standard error from ERROR on. The depth of the line is always 2, whoever logged the record: the
-- search for the source begins at `emit` itself, which is in no file of `logging`.
pub emit-written_to :
    (logging_file own_file : String) (callers : List String) (name : String) (number : ℕ)
    (sink : Sink) (message : String)
    → str_eq own_file logging_file ≡ false
    → Standard name number sink
    → (line : Line) × (emit loguru_levels logging_file own_file
          (some callers)
          (record { levelname = name; levelno = number; get_message = ok message })
        ≡ ok (line ∷ []))
      × (line.level ≡ record { name = name; no = number })
      × (line.message ≡ message)
      × (line.depth ≡ 2)
      × (written_to line.level ≡ sink ∷ [])
unfolding emit written_to takes
emit-written_to logging_file own_file callers _ _ _ message own debug =
    (_, refl, refl, refl, rw own refl, refl)
emit-written_to logging_file own_file callers _ _ _ message own info =
    (_, refl, refl, refl, rw own refl, refl)
emit-written_to logging_file own_file callers _ _ _ message own warning =
    (_, refl, refl, refl, rw own refl, refl)
emit-written_to logging_file own_file callers _ _ _ message own error =
    (_, refl, refl, refl, rw own refl, refl)
emit-written_to logging_file own_file callers _ _ _ message own critical =
    (_, refl, refl, refl, rw own refl, refl)
