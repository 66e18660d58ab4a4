-- ===== src/Limits/Keys.antt =====
-- The keys under which the strategies of app/limits.py count.
use Prim.Native.Char.{Char, code}
use Prim.Native.String
use Prim.Native.String.{String, count}
use text.Mathlib.TextLemmas.{
  cons-append, head-eq_of_cons-eq, tail-eq_of_cons-eq, append_cancel_left, append_cancel_right,
  append_inj,
}
use va_enp_api.Prelude.{◌≡◌, ◌≢◌, sym, ap, ◌∙◌, some, none, arith, [], ◌∷◌, f_string, Option}
use va_enp_api.Limits.Strategies.{
  WindowType, fixed, daily, RateLimitConfig, windowed, key_of, get_key,
}

second_char :
    (a b c d : Char) (s t x y : String)
    → String.◌++◌ (String.◌∷◌ a (String.◌∷◌ b s)) x ≡ String.◌++◌ (String.◌∷◌ c (String.◌∷◌ d t)) y
    → b ≡ d
second_char a b c d s t x y e =
    let e₁ =
      tail-eq_of_cons-eq
        (sym (cons-append a (String.◌∷◌ b s) x) ∙ e ∙ cons-append c (String.◌∷◌ d t) y) in
    head-eq_of_cons-eq (sym (cons-append b s x) ∙ e₁ ∙ cons-append d t y)

ids_inj :
    (prefix s k s' k' : String)
    → count s ≡ count s'
    → f_string (prefix ∷ s ∷ "-" ∷ k ∷ []) ≡ f_string (prefix ∷ s' ∷ "-" ∷ k' ∷ [])
    → (s ≡ s') × (k ≡ k')
ids_inj prefix s k s' k' long e =
    let ids = append_cancel_left prefix _ _ e in
    let (same, rest) = append_inj ids long in
    (same, append_cancel_right k k' "" (append_cancel_left "-" _ _ rest))

key_of-inj :
    (t : Option WindowType) (s k s' k' : String)
    → count s ≡ count s'
    → key_of t s k ≡ key_of t s' k'
    → (s ≡ s') × (k ≡ k')
key_of-inj (some daily) s k s' k' long e = ids_inj "remaining-daily-limit-" s k s' k' long e
key_of-inj (some fixed) s k s' k' long e = ids_inj "rate-limit-" s k s' k' long e
key_of-inj none s k s' k' long e = ids_inj "rate-limit-" s k s' k' long e

e-ne-a : ◌≢◌ {A = Char} "e" "a"
e-ne-a h = absurd (let c = ap code h in omega arith)

-- A counter by the day and one by a fixed period never share a key.
pub get_key-daily-ne-fixed :
    (c d : RateLimitConfig) (s k s' k' : String)
    → c.window_type ≡ some daily
    → d.window_type ≡ some fixed
    → get_key (windowed c) s k ≢ get_key (windowed d) s' k'
unfolding get_key
get_key-daily-ne-fixed c d s k s' k' by_day by_period e = e-ne-a (
    second_char "r" "e" "r" "a" "maining-daily-limit-" "te-limit-" _ _
      (sym (ap (λ t. key_of t s k) by_day) ∙ e ∙ ap (λ t. key_of t s' k') by_period))

-- Two requests are counted under one key only if their service and their API key are the same, for
-- services whose ids are equally long, as UUIDs are.
pub get_key-inj :
    (c : RateLimitConfig) (s k s' k' : String)
    → count s ≡ count s'
    → get_key (windowed c) s k ≡ get_key (windowed c) s' k'
    → (s ≡ s') × (k ≡ k')
unfolding get_key
get_key-inj c s k s' k' long e = key_of-inj c.window_type s k s' k' long e
