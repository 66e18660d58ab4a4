-- ===== src/Logging/Levels.antt =====
-- The sinks that `customize_logging` adds, and `InterceptHandler.emit`, which hands the records of
-- Python's own loggers to Loguru. What Loguru does with a line is documented: a sink takes the lines
-- whose level is at least its own and that its filter lets pass.
use va_enp_api.Prelude.{
  ℕ, ◌+◌, String, Bool, true, not, is_some, ◌&&◌, ◌==◌, Option, none, some, List, [], ◌∷◌, leb,
  is_one_of, str_eq, if◌then◌else◌,
}
use va_enp_api.Effects.{Exception, value_error, Result, ok, err}

-- A level of Loguru: its name and its number.
pub record Level : Type 0 where
  pub name : String
  pub no : ℕ

-- `loguru_logger.level(name)`, which raises `ValueError` for a name that no level has.
abbrev pub level_named : String → List Level → Option Level
level_named name [] = none
level_named name (level ∷ levels) =
    let later = level_named name levels in if str_eq name level.name then some level else later

-- The levels that Loguru starts with.
abbrev pub loguru_levels : List Level
loguru_levels =
    record { name = "TRACE"; no = 5 }
    ∷ record { name = "DEBUG"; no = 10 }
    ∷ record { name = "INFO"; no = 20 }
    ∷ record { name = "SUCCESS"; no = 25 }
    ∷ record { name = "WARNING"; no = 30 }
    ∷ record { name = "ERROR"; no = 40 }
    ∷ record { name = "CRITICAL"; no = 50 }
    ∷ []

abbrev pub loglevel_mapping : List (ℕ × String)
loglevel_mapping =
    (50, "CRITICAL")
    ∷ (40, "ERROR")
    ∷ (30, "WARNING")
    ∷ (20, "INFO")
    ∷ (10, "DEBUG")
    ∷ (0, "NOTSET")
    ∷ []

-- `LOGLEVEL_MAPPING.get(number, default)`
abbrev pub mapped : String → ℕ → List (ℕ × String) → String
mapped default number [] = default
mapped default number ((n, name) ∷ entries) =
    let later = mapped default number entries in if number == n then name else later

abbrev pub stdout_allowed_levels : List String
stdout_allowed_levels = "DEBUG" ∷ "INFO" ∷ "WARNING" ∷ []

pub data Sink : Type 0 where
  stdout stderr : Sink

-- Whether a sink takes a line of a level: its threshold, DEBUG or ERROR, and the filter of the first.
unfoldable pub takes : Sink → Level → Bool
takes stdout level = leb 10 level.no && is_one_of level.name stdout_allowed_levels
takes stderr level = leb 40 level.no

abbrev pub taken_by : List Sink → Level → List Sink
taken_by [] level = []
taken_by (sink ∷ sinks) level =
    let others = taken_by sinks level in if takes sink level then sink ∷ others else others

-- The sinks that `customize_logging` leaves: it removes those that were there.
unfoldable pub written_to : Level → List Sink
unfolding takes
written_to = taken_by (stdout ∷ stderr ∷ [])

-- A record of Python's `logging`. `get_message` is the outcome of `getMessage()`, which raises if the
-- arguments do not fit the format.
pub record LogRecord : Type 0 where
  pub levelname : String
  pub levelno : ℕ
  pub get_message : Result Exception String

-- A frame of the call stack is the name of its file; a stack is its frames, the innermost first, and
-- `f_back` goes to the next. The loop adds to the depth for each frame of `logging` itself.
abbrev pub frame_depth : String → ℕ → List String → ℕ
frame_depth logging_file depth [] = depth
frame_depth logging_file depth (file ∷ outer) =
    let further = frame_depth logging_file (depth + 1) outer in
    if str_eq file logging_file then further else depth

-- A line that Loguru is given: its level, its message and the depth at which its source is.
pub record Line : Type 0 where
  pub level : Level
  pub message : String
  pub depth : ℕ

-- `loguru_logger.log(level, message)`, which raises `ValueError` for a level that there is not.
abbrev pub log_at : List Level → String → String → ℕ → Result Exception (List Line)
log_at levels name message depth = elim (level_named name levels) [
  | none ↦ err (value_error "Level does not exist")
  | some level ↦ ok (record { level = level; message = message; depth = depth } ∷ [])
]

-- The name of the level that `emit` logs at.
abbrev pub emitted_level : List Level → LogRecord → String
emitted_level levels log = elim (level_named log.levelname levels) [
  | none ↦ mapped "INFO" log.levelno loglevel_mapping
  | some level ↦ level.name
]

-- What `emit` does with the text of a record, apart from its own warning.
abbrev pub log_text :
    List Level → String → Option (List String) → LogRecord → String → Result Exception (List Line)
log_text levels logging_file none log message = ok []
log_text levels logging_file (some stack) log message =
    log_at levels (emitted_level levels log) message (frame_depth logging_file 2 stack)

-- Whether `emit` asks for the text: for its warning, if Loguru has no level of the record's name, or
-- for the line, if there is a frame.
abbrev pub needs_text : List Level → Option (List String) → LogRecord → Bool
needs_text levels (some stack) log = true
needs_text levels none log = not (is_some (level_named log.levelname levels))

abbrev pub made_of :
    (String → Result Exception (List Line)) → Result Exception String → Result Exception (List Line)
made_of log_it (err x) = err x
made_of log_it (ok message) = log_it message

abbrev pub with_text :
    List Level → String → Option (List String) → LogRecord → Result Exception (List Line)
with_text levels logging_file stack log =
    made_of (log_text levels logging_file stack log) log.get_message

-- `logging.currentframe()` is the frame of its caller, which is `emit`; `callers` are the frames that
-- called that one, the first of them in `logging`. There is no frame where Python has no
-- `sys._getframe`.
abbrev pub current_frame : String → Option (List String) → Option (List String)
current_frame own_file none = none
current_frame own_file (some callers) = some (own_file ∷ callers)

-- `InterceptHandler.emit`, which stands in `own_file`.
unfoldable pub emit :
    List Level
    → (logging_file own_file : String) → Option (List String)
    → LogRecord
    → Result Exception (List Line)
emit levels logging_file own_file callers log =
    if needs_text levels (current_frame own_file callers) log
    then with_text levels logging_file (current_frame own_file callers) log
    else ok []
