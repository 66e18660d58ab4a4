-- ===== src/Logging/Tests.antt =====
-- Runs of the logging configuration.
use va_enp_api.Prelude.{arith, String, ◌≡◌, ◌⊎◌, ◌↔◌, refl, true, none, some, List, [], ◌∷◌}
use va_enp_api.Effects.{Exception, ok, err}
use va_enp_api.Auth.Secrets.{text_length}
use va_enp_api.Logging.Levels.{
  level_named, loguru_levels, stderr, takes, written_to, LogRecord, frame_depth, Line, emit,
}
use va_enp_api.Logging.Frames.{IsSource, frame_depth-IsSource}
use va_enp_api.Logging.Routing.{error, emit-written_to}
use va_enp_api.Logging.Loggers.{LoggingState, other_handler, handled_by}
use va_enp_api.Logging.Unknown.{emit-err_iff}
use va_enp_api.Logging.Hex.{
  SpanContext, format_hex, read_hex, get_trace_context, get_trace_context-Reads,
}

abbrev logging_file : String
logging_file = "logging/__init__.py"

abbrev own_file : String
own_file = "app/logging/logging_config.py"

abbrev stack : List String
stack = "logging/__init__.py" ∷ "logging/__init__.py" ∷ "uvicorn/server.py" ∷ "main.py" ∷ []

abbrev span : SpanContext
span = record { trace_id = 255; span_id = 3054; is_valid = true }

span_texts :
    get_trace_context (some span) ≡ ("000000000000000000000000000000ff", "0000000000000bee")
unfolding get_trace_context format_hex
span_texts = refl

wide_number : format_hex 2 4096 ≡ "1000"
unfolding format_hex
wide_number = refl

success_is_lost : written_to (record { name = "SUCCESS"; no = 25 }) ≡ []
unfolding written_to takes
success_is_lost = refl

numbered_record :
    emit loguru_levels logging_file own_file
      (some stack)
      (record { levelname = "NOTICE"; levelno = 30; get_message = ok "m" })
    ≡ ok (record { level = record { name = "WARNING"; no = 30 }; message = "m"; depth = 2 } ∷ [])
unfolding emit
numbered_record = refl

frame_depth-IsSource_example : IsSource logging_file 2 stack (frame_depth logging_file 2 stack)
frame_depth-IsSource_example = frame_depth-IsSource logging_file 2 stack

emit-written_to_example :
    (line : Line) × (emit loguru_levels logging_file own_file
        (some stack)
        (record { levelname = "ERROR"; levelno = 40; get_message = ok "m" })
      ≡ ok (line ∷ []))
    × (line.level ≡ record { name = "ERROR"; no = 40 })
    × (line.message ≡ "m")
    × (line.depth ≡ 2)
    × (written_to line.level ≡ stderr ∷ [])
emit-written_to_example =
    emit-written_to logging_file own_file stack "ERROR" 40 stderr "m" refl error

abbrev unset : LogRecord
unset = record { levelname = "UNSET"; levelno = 0; get_message = ok "m" }

emit-err_iff_example :
    ((x : Exception) × (emit loguru_levels logging_file own_file (some stack) unset ≡ err x)) ↔ (
      ((x : Exception) × (unset.get_message ≡ err x))
      ⊎ ((level_named "UNSET" loguru_levels ≡ none) × (unset.levelno ≡ 0)))
emit-err_iff_example = emit-err_iff logging_file own_file stack unset

get_trace_context-Reads_example :
    (text_length (get_trace_context (some span)).0 ≡ 32)
    × (text_length (get_trace_context (some span)).1 ≡ 16)
    × (read_hex 0 (get_trace_context (some span)).0 ≡ 255)
    × (read_hex 0 (get_trace_context (some span)).1 ≡ 3054)
get_trace_context-Reads_example = get_trace_context-Reads span refl (omega arith) (omega arith)

-- Before, Uvicorn's loggers write to their own handler and the root has another.
abbrev uvicorn_default : LoggingState
uvicorn_default = record {
  loggers = λ name. record { handlers = other_handler "stream" ∷ []; propagate = true };
  sinks = [];
}

handled_twice :
    handled_by uvicorn_default.loggers ("uvicorn" ∷ [])
    ≡ other_handler "stream" ∷ other_handler "stream" ∷ []
handled_twice = refl
