-- ===== src/Effects.antt =====
-- How the model runs Python code: a value or an exception (app/exceptions.py, and the exceptions
-- that the code raises or lets through), and actions on a world that other programs change too.
use va_enp_api.Prelude.{
  ℕ, ◌≡◌, refl, ◌⊎◌, inl, inr, String, Bool, true, false, Option, List, [], ◌∷◌, arith, str_eq,
  if◌then◌else◌,
}

-- The exceptions that cross a function of the program. `RetryableError` and `NonRetryableError` have
-- their `log_msg`; the status and its reason, which no code gives, are left out. Those of a library
-- (the database driver, Redis, JWT, SQS) that are caught where they arise have a type of their own
-- beside their library.
pub data Exception : Type 0 where
  retryable_error : Option String → Exception
  non_retryable_error : Option String → Exception
  http_exception : ℕ → String → Exception
  token_expired_error : Exception
  token_algorithm_error : Exception
  token_decode_error : Exception
  token_issuer_error : Exception
  token_issued_at_error : Exception
  value_error : String → Exception
  not_implemented_error : String → Exception
  -- `AttributeError` and `TypeError`, as on `None.active` and `list(None)`.
  attribute_error : Exception
  type_error : Exception
  index_error : Exception
  key_error : String → Exception
  -- Any other, which no function of the program catches by name.
  other_error : String → Exception

-- What ends a coroutine: an exception as above; `CancelledError`, and whether it came while a
-- `KeyboardInterrupt` was handled; or another that is no `Exception`, such as `SystemExit`.
pub data BaseException : Type 0 where
  exception : Exception → BaseException
  cancelled_error : (keyboard_interrupt : Bool) → BaseException
  exit_error : String → BaseException

pub data Result (X A : Type 0) : Type 0 where
  ok : A → Result X A
  err : X → Result X A

-- An action: it raises an `X` or returns an `A`, and leaves the world changed either way.
abbrev pub Exec : Type 0 → Type 0 → Type 0 → Type 0
Exec W X A = W → Result X A × W

module _ {W X A : Type 0} where
  abbrev pub pure : A → Exec W X A
  pure a w = (ok a, w)

  abbrev pub raise : X → Exec W X A
  raise x w = (err x, w)

  abbrev pub of_result : Result X A → Exec W X A
  of_result r w = (r, w)

infixl 5 ◌>>=◌ ◌>>◌
abbrev pub ◌>>=◌ : {W X A B : Type 0} → Exec W X A → (A → Exec W X B) → Exec W X B
◌>>=◌ m f w = let (r, w') = m w in elim r [ ok a ↦ f a w' | err x ↦ (err x, w') ]

abbrev pub ◌>>◌ : {W X A B : Type 0} → Exec W X A → Exec W X B → Exec W X B
m >> k = m >>= λ _. k

-- `try: m; except …`: the handler takes every exception, and raises again what it does not catch.
abbrev pub catch : {W X Y A : Type 0} → Exec W X A → (X → Exec W Y A) → Exec W Y A
catch m h w = let (r, w') = m w in elim r [ ok a ↦ (ok a, w') | err x ↦ h x w' ]

-- A part that raises nothing but `Exception`s, where others may be raised.
abbrev pub within_base : {W A : Type 0} → Exec W Exception A → Exec W BaseException A
within_base m = catch m (λ x. raise (exception x))

-- What follows the body of `async with`, whichever way it ended.
abbrev pub exit_with : {W X A : Type 0} → Exec W X (Unit {0}) → Result X A × W → Result X A × W
exit_with exit (r, w) =
    let (left, w') = exit w in elim left [ err x ↦ (err x, w') | ok _ ↦ (r, w') ]

-- `async with`
abbrev pub async_with :
    {W X A : Type 0} → Exec W X (Unit {0}) → Exec W X (Unit {0}) → Exec W X A → Exec W X A
async_with enter exit body = enter >> (λ w. exit_with exit (body w))

-- `dictionary[key]`
abbrev pub item : {V : Type 0} → String → List (String × V) → Result Exception V
item key [] = err (key_error key)
item key ((k, v) ∷ entries) = let later = item key entries in if str_eq key k then ok v else later

abbrev pub is_retryable : Exception → Bool
is_retryable (retryable_error _) = true
is_retryable _ = false

-- `except (RetryableError, NonRetryableError)`
abbrev pub is_app_error : Exception → Bool
is_app_error (retryable_error _) = true
is_app_error (non_retryable_error _) = true
is_app_error _ = false

-- The two ways an action ends.
pub Exec-cases :
    {W X A : Type 0} (m : Exec W X A) (w : W)
    → ((a : A) × (w' : W) × (m w ≡ (ok a, w'))) ⊎ ((x : X) × (w' : W) × (m w ≡ (err x, w')))
Exec-cases {W} {X} {A} m w = of_outcome (m w)
  where
    of_outcome :
        (o : Result X A × W)
        → ((a : A) × (w' : W) × (o ≡ (ok a, w'))) ⊎ ((x : X) × (w' : W) × (o ≡ (err x, w')))
    of_outcome (ok a, w') = inl (a, w', refl)
    of_outcome (err x, w') = inr (x, w', refl)

-- The two ways a computation ends.
pub Result-cases :
    {X A : Type 0} (r : Result X A) → ((a : A) × (r ≡ ok a)) ⊎ ((x : X) × (r ≡ err x))
Result-cases (ok a) = inl (a, refl)
Result-cases (err x) = inr (x, refl)

-- What a chain that returned went through.
pub >>=-eq-ok :
    {W X A B : Type 0} (m : Exec W X A) (f : A → Exec W X B) (w : W) {b : B} {w' : W}
    → (m >>= f) w ≡ (ok b, w')
    → (a : A) × (w₁ : W) × (m w ≡ (ok a, w₁)) × (f a w₁ ≡ (ok b, w'))
>>=-eq-ok m f w h = elim (Exec-cases m w) [
  | inl (a, w₁, e) ↦ (a, w₁, e, ground arith)
  | inr (x, w₁, e) ↦ absurd (ground arith)
]

-- A `try` whose handler raises returns what its body returned.
pub catch-raise-ok :
    {W X Y A : Type 0} (m : Exec W X A) (f : X → Y) (w : W) {a : A} {w' : W}
    → catch m (λ x. raise (f x)) w ≡ (ok a, w')
    → m w ≡ (ok a, w')
catch-raise-ok m f w h = elim (Exec-cases m w) [
  | inl (a, w₁, e) ↦ ground arith
  | inr (x, w₁, e) ↦ absurd (ground arith)
]

-- An `async with` that returned was opened, its body returned, and it was closed.
pub async_with-ok :
    {W X A : Type 0} (enter exit : Exec W X (Unit {0})) (body : Exec W X A) (w : W) {a : A} {w' : W}
    → async_with enter exit body w ≡ (ok a, w')
    → (w₁ : W) × (w₂ : W) × (enter w ≡ (ok tt, w₁))
      × (body w₁ ≡ (ok a, w₂))
      × (exit w₂ ≡ (ok tt, w'))
async_with-ok enter exit body w h =
    let (_, w₁, entered, rest) = >>=-eq-ok enter (λ _. (λ v. exit_with exit (body v))) w h in
    elim (Exec-cases body w₁) [
      | inl (b, w₂, e) ↦ elim (Exec-cases exit w₂) [
        | inl (_, w₃, l) ↦ (w₁, w₂, entered, ground arith, ground arith)
        | inr (x, w₃, l) ↦ absurd (ground arith)
      ]
      | inr (x, w₂, e) ↦ elim (Exec-cases exit w₂) [
        | inl (_, w₃, l) ↦ absurd (ground arith)
        | inr (y, w₃, l) ↦ absurd (ground arith)
      ]
    ]

-- A chain goes on where its first action returned.
pub >>=-ok :
    {W X A B : Type 0} (m : Exec W X A) (f : A → Exec W X B) {w w' : W} {a : A}
    → m w ≡ (ok a, w')
    → (m >>= f) w ≡ f a w'
>>=-ok m f e = ground arith

pub catch-ok :
    {W X Y A : Type 0} (m : Exec W X A) (h : X → Exec W Y A) {w w' : W} {a : A}
    → m w ≡ (ok a, w')
    → catch m h w ≡ (ok a, w')
catch-ok m h e = ground arith
