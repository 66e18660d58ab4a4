-- ===== src/Logging/Loggers.antt =====
-- The loggers that `CustomizeLogger.make_logger` of app/logging/logging_config.py configures. What
-- Python's `logging` does with a record is documented: the handlers of its logger take it, and those
-- of the loggers above, up to one that does not propagate.
use va_enp_api.Prelude.{
  String, Bool, true, false, ◌&&◌, ◌≡◌, refl, List, [], ◌∷◌, ◌++◌, str_eq, if◌then◌else◌, inl, inr,
  Bool-cases,
}
use va_enp_api.Logging.Levels.{Level, Sink, stdout, stderr, taken_by, written_to}

pub data Handler : Type 0 where
  intercept_handler : Handler
  other_handler : String → Handler

pub record Logger : Type 0 where
  pub handlers : List Handler
  pub propagate : Bool

-- The name of a logger by its parts, the last first: `uvicorn.error` stands below `uvicorn`, and that
-- below the root, whose name has no parts.
abbrev pub Name : Type 0
Name = List String

abbrev pub same_name : Name → Name → Bool
same_name [] [] = true
same_name [] (y ∷ ys) = false
same_name (x ∷ xs) [] = false
same_name (x ∷ xs) (y ∷ ys) = str_eq x y && same_name xs ys

-- Python's loggers, and the sinks of Loguru.
pub record LoggingState : Type 0 where
  pub loggers : Name → Logger
  pub sinks : List Sink

abbrev pub set_logger : Name → (Logger → Logger) → LoggingState → LoggingState
set_logger name change state =
    let before = state.loggers in
    record state { loggers = λ n. if same_name n name then change (before n) else before n }

abbrev pub set_handlers : List Handler → Logger → Logger
set_handlers handlers logger = record logger { handlers = handlers }

-- `customize_logging`
unfoldable pub customize_logging : LoggingState → LoggingState
customize_logging state = record (set_logger [] (set_handlers []) state) {
  sinks = stdout ∷ stderr ∷ [];
}

abbrev pub configure_fastapi_logger : LoggingState → LoggingState
configure_fastapi_logger = set_logger ("fastapi" ∷ []) (set_handlers (intercept_handler ∷ []))

abbrev pub intercepted : Logger → Logger
intercepted logger = record { handlers = intercept_handler ∷ []; propagate = false }

abbrev pub configure_all : List Name → LoggingState → LoggingState
configure_all [] state = state
configure_all (name ∷ names) state = configure_all names (set_logger name intercepted state)

abbrev pub uvicorn_loggers : List Name
uvicorn_loggers = ("uvicorn" ∷ []) ∷ ("error" ∷ "uvicorn" ∷ []) ∷ ("access" ∷ "uvicorn" ∷ []) ∷ []

abbrev pub configure_uvicorn_logger : LoggingState → LoggingState
configure_uvicorn_logger = configure_all uvicorn_loggers

unfoldable pub make_logger : LoggingState → LoggingState
unfolding customize_logging
make_logger state = configure_uvicorn_logger (configure_fastapi_logger (customize_logging state))

-- The handlers that take a record of a logger.
abbrev pub handled_by : (Name → Logger) → Name → List Handler
handled_by loggers [] = (loggers []).handlers
handled_by loggers (part ∷ parent) =
    let logger = loggers (part ∷ parent) in
    let above = handled_by loggers parent in
    logger.handlers ++ (if logger.propagate then above else [])

-- The loggers that are configured by name.
pub data Configured : Name → Type 0 where
  fastapi : Configured ("fastapi" ∷ [])
  uvicorn : Configured ("uvicorn" ∷ [])
  uvicorn_error : Configured ("error" ∷ "uvicorn" ∷ [])
  uvicorn_access : Configured ("access" ∷ "uvicorn" ∷ [])

-- Whatever the loggers and the sinks were before, after `make_logger` a record of FastAPI's logger or
-- of one of Uvicorn's is handed to Loguru exactly once and to no other handler, and Loguru writes
-- a line of any level to the sinks that the configuration gives for that level.
make_logger_once :
    (state : LoggingState) (name : Name) (level : Level)
    → Configured name
    → (handled_by (make_logger state).loggers name ≡ intercept_handler ∷ [])
      × (taken_by (make_logger state).sinks level ≡ written_to level)
unfolding make_logger customize_logging written_to
make_logger_once state _ level fastapi = (
  elim (Bool-cases (state.loggers ("fastapi" ∷ [])).propagate) [
    | inl e ↦ rw e refl
    | inr e ↦ rw e refl
  ],
  refl,
)
make_logger_once state _ level uvicorn = (refl, refl)
make_logger_once state _ level uvicorn_error = (refl, refl)
make_logger_once state _ level uvicorn_access = (refl, refl)
