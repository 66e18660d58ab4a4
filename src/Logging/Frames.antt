-- ===== src/Logging/Frames.antt =====
-- The frame that a log line is attributed to: the loop of `InterceptHandler.emit` in
-- app/logging/logging_config.py.
use va_enp_api.Prelude.{
  ℕ, ◌+◌, String, ◌≡◌, refl, ap, false, List, [], ◌∷◌, ◌++◌, arith, length, All, str_eq, eq_iff,
  Bool-cases, inl, inr,
}
use va_enp_api.Logging.Levels.{frame_depth}

-- The stack ends, or its first frame is not one of `logging`.
pub data StopsAt (logging_file : String) : List String → Type 0 where
  at_end : StopsAt logging_file []
  at_frame :
      {file : String} {outer : List String}
      → str_eq file logging_file ≡ false
      → StopsAt logging_file (file ∷ outer)

-- The frames of `logging` itself are passed over, and none of the others.
pub record IsSource (logging_file : String) (start : ℕ) (stack : List String) (depth : ℕ)
    : Type 0 where
  pub internal : List String
  pub outer : List String
  pub splits : stack ≡ internal ++ outer
  pub passed : All (λ file. file ≡ logging_file) internal
  pub reached : StopsAt logging_file outer
  pub counted : depth ≡ start + length internal

-- The loop over the frames of a call stack ends at its first frame outside of `logging`, or at the
-- stack's end, and has counted the frames that it passed.
pub frame_depth-IsSource :
    (logging_file : String) (start : ℕ) (stack : List String)
    → IsSource logging_file start stack (frame_depth logging_file start stack)
frame_depth-IsSource logging_file start [] = record {
  internal = [];
  outer = [];
  splits = refl;
  passed = tt;
  reached = at_end;
  counted = omega arith;
}
frame_depth-IsSource logging_file start (file ∷ stack) =
    elim (Bool-cases (str_eq file logging_file)) [
      | inl e ↦
          let rest = frame_depth-IsSource logging_file (start + 1) stack in
          let all_counted = rest.counted in
          record {
            internal = file ∷ rest.internal;
            outer = rest.outer;
            splits = ap (λ l. file ∷ l) rest.splits;
            passed = ((eq_iff file logging_file).0 e, rest.passed);
            reached = rest.reached;
            counted = ground arith;
          }
      | inr e ↦ record {
        internal = [];
        outer = file ∷ stack;
        splits = refl;
        passed = tt;
        reached = at_frame e;
        counted = ground arith;
      }
    ]
