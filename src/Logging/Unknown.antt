-- ===== src/Logging/Unknown.antt =====
-- Records whose level Loguru does not know: `InterceptHandler.emit` of app/logging/logging_config.py.
use va_enp_api.Prelude.{
  ℕ, String, ◌≡◌, ◌↔◌, ◌≢◌, ◌⊎◌, refl, sym, subst, ap, ◌∙◌, none, some, List, [], ◌∷◌, arith, ◌==◌,
  str_eq, eq_iff, Bool-cases, Option-cases, inl, inr,
}
use va_enp_api.Effects.{Exception, Result, ok, err, Result-cases}
use va_enp_api.Logging.Levels.{
  Level, level_named, loguru_levels, loglevel_mapping, mapped, LogRecord, frame_depth, Line, log_at,
  emitted_level, log_text, made_of, with_text, emit,
}

level_named-name :
    (name : String) (levels : List Level) (level : Level)
    → level_named name levels ≡ some level
    → level.name ≡ name
level_named-name name [] level h = absurd (ground arith)
level_named-name name (l ∷ levels) level h = elim (Bool-cases (str_eq name l.name)) [
  | inl e ↦
      let same : l ≡ level = ground arith in
      let named = (eq_iff name l.name).0 e in ap (λ k. k.name) (sym same) ∙ sym named
  | inr e ↦ level_named-name name levels level (ground arith)
]

ok-eq-err : {X A B : Type 0} {a : A} {x : X} {r : Result X A} → r ≡ ok a → r ≡ err x → B
ok-eq-err h e = absurd (ground arith)

module _ (levels : List Level) (logging_file : String) (stack : List String) (log : LogRecord)
    (message : String) where
  log_text-log_at :
      (name : String)
      → emitted_level levels log ≡ name
      → log_text levels logging_file (some stack) log message
        ≡ log_at levels name message (frame_depth logging_file 2 stack)
  log_text-log_at name e = ap (λ n. log_at levels n message (frame_depth logging_file 2 stack)) e

  log_at-ok :
      (name : String) (level : Level) (depth : ℕ)
      → level_named name levels ≡ some level
      → log_at levels name message depth
        ≡ ok (record { level = level; message = message; depth = depth } ∷ [])
  log_at-ok name level depth e = rw (log_at, e) refl

  -- A level that Loguru has is found again by its own name.
  log_text_known :
      (level : Level)
      → level_named log.levelname levels ≡ some level
      → (lines : List Line) × (log_text levels logging_file (some stack) log message ≡ ok lines)
  log_text_known level e =
      let named = level_named-name log.levelname levels level e in
      let again = ap (λ n. level_named n levels) named ∙ e in
      let emitted : emitted_level levels log ≡ level.name = rw (emitted_level, e) refl in
      (_, log_text-log_at level.name emitted ∙ log_at-ok level.name level _ again)

  log_text-mapped :
      level_named log.levelname levels ≡ none
      → log_text levels logging_file (some stack) log message
        ≡ log_at levels
            (mapped "INFO" log.levelno loglevel_mapping)
            message
            (frame_depth logging_file 2 stack)
  log_text-mapped e = log_text-log_at _ (rw (emitted_level, e) refl)

abbrev HasLevel : String → Type 0
HasLevel name = (level : Level) × (level_named name loguru_levels ≡ some level)

mapped-HasLevel :
    (n : ℕ) (name : String)
    → mapped "INFO" n loglevel_mapping ≡ name
    → HasLevel name
    → HasLevel (mapped "INFO" n loglevel_mapping)
mapped-HasLevel n name e h = subst HasLevel (sym e) h

-- The number 0 is mapped to NOTSET, and every other to a level of Loguru.
mapped-cases :
    (n : ℕ)
    → ((n ≡ 0) × (mapped "INFO" n loglevel_mapping ≡ "NOTSET"))
      ⊎ ((n ≢ 0) × HasLevel (mapped "INFO" n loglevel_mapping))
mapped-cases n = elim (Bool-cases (n == 50)) [
  | inl e ↦ inr (ground arith, mapped-HasLevel n "CRITICAL" (rw e refl) (_, refl))
  | inr e₁ ↦ elim (Bool-cases (n == 40)) [
    | inl e ↦ inr (ground arith, mapped-HasLevel n "ERROR" (rw (e₁, e) refl) (_, refl))
    | inr e₂ ↦ elim (Bool-cases (n == 30)) [
      | inl e ↦ inr (ground arith, mapped-HasLevel n "WARNING" (rw (e₁, e₂, e) refl) (_, refl))
      | inr e₃ ↦ elim (Bool-cases (n == 20)) [
        | inl e ↦ inr (ground arith, mapped-HasLevel n "INFO" (rw (e₁, e₂, e₃, e) refl) (_, refl))
        | inr e₄ ↦ elim (Bool-cases (n == 10)) [
          | inl e ↦
              inr (ground arith, mapped-HasLevel n "DEBUG" (rw (e₁, e₂, e₃, e₄, e) refl) (_, refl))
          | inr e₅ ↦ elim (Bool-cases (n == 0)) [
            | inl e ↦ inl (ground arith, rw (e₁, e₂, e₃, e₄, e₅, e) refl)
            | inr e ↦
                inr (
                  ground arith,
                  mapped-HasLevel n "INFO" (rw (e₁, e₂, e₃, e₄, e₅, e) refl) (_, refl),
                )
          ]
        ]
      ]
    ]
  ]
]

-- The text of a record that Loguru is given is refused if and only if Loguru has no level of the
-- record's name and the record's number is 0: it is then logged at NOTSET.
log_text-err_iff :
    (logging_file : String) (stack : List String) (log : LogRecord) (message : String)
    → ((x : Exception) × (log_text loguru_levels logging_file (some stack) log message ≡ err x))
      ↔ ((level_named log.levelname loguru_levels ≡ none) × (log.levelno ≡ 0))
log_text-err_iff logging_file stack log message = (
  λ h. let (x, e) = h in raised x e,
  λ h.
      let (unknown, nothing) = h in
      let emitted : emitted_level loguru_levels log ≡ "NOTSET" =
        rw (emitted_level, unknown, nothing) refl in
      (_, log_text-log_at loguru_levels logging_file stack log message "NOTSET" emitted),
)
  where
    raised :
        (x : Exception)
        → log_text loguru_levels logging_file (some stack) log message ≡ err x
        → (level_named log.levelname loguru_levels ≡ none) × (log.levelno ≡ 0)
    raised x e = elim (Option-cases (level_named log.levelname loguru_levels)) [
      | inr (level, k) ↦
          let (lines, r) = log_text_known loguru_levels logging_file stack log message level k in
          ok-eq-err r e
      | inl k ↦ elim (mapped-cases log.levelno) [
        | inl (z, _) ↦ (k, z)
        | inr (_, found) ↦
            let named =
              log_at-ok loguru_levels logging_file stack log message
                (mapped "INFO" log.levelno loglevel_mapping) found.0
                (frame_depth logging_file 2 stack) found.1 in
            ok-eq-err (log_text-mapped loguru_levels logging_file stack log message k ∙ named) e
      ]
    ]

-- `emit` raises if and only if the text of the record cannot be made, or Loguru has no level of the
-- record's name and the record's number is 0, given that there is a frame: it is then logged at
-- NOTSET, which is no level of Loguru.
pub emit-err_iff :
    (logging_file own_file : String) (callers : List String) (log : LogRecord)
    → ((x : Exception) × (emit loguru_levels logging_file own_file (some callers) log ≡ err x)) ↔ (
        ((x : Exception) × (log.get_message ≡ err x))
        ⊎ ((level_named log.levelname loguru_levels ≡ none) × (log.levelno ≡ 0)))
unfolding emit
emit-err_iff logging_file own_file callers log = elim (Result-cases log.get_message) [
  | inr (y, failed) ↦ (λ h. inl (y, failed), λ h. (y, rw failed refl))
  | inl (message, made) ↦
      let (to, from) = log_text-err_iff logging_file (own_file ∷ callers) log message in
      (
        λ h. let (x, e) = h in inr (to (x, sym (with_text-log_text made) ∙ e)),
        λ h. elim h [
          | inl (x, failed) ↦ ok-eq-err made failed
          | inr unknown ↦ let (x, e) = from unknown in (x, with_text-log_text made ∙ e)
        ],
      )
]
  where
    with_text-log_text :
        {message : String}
        → log.get_message ≡ ok message
        → with_text loguru_levels logging_file (some (own_file ∷ callers)) log
          ≡ log_text loguru_levels logging_file (some (own_file ∷ callers)) log message
    with_text-log_text {message} e =
        ap (made_of (log_text loguru_levels logging_file (some (own_file ∷ callers)) log)) e
