-- ===== src/Redis/Counting.antt =====
-- What `consume_rate_limit_token` does to the counter of its key, when its commands succeed.
use va_enp_api.Prelude.{
  ℕ, zero, suc, min, ◌-◌, ◌<◌, ◌≡◌, refl, sym, ◌∙◌, ap, String, Bool, true, false, Option, none,
  some, ◌⊎◌, inl, inr, subst, str_eq, if◌then◌else◌, arith,
}
use mathlib.Core.Path.{subst₂}
use text.Mathlib.TextPositions.{eq_refl}
use va_enp_api.Prelude.Int.{ℤ, pos, ltb_ℤ, ◌-ℤ◌}
use va_enp_api.Effects.{ok, Exec-cases, catch-raise-ok, >>=-eq-ok, ◌>>=◌}
use va_enp_api.Redis.Server.{Entry, set_entry, decr_entry, reply, Redis, IsRedis, Reply, number}
use va_enp_api.Retry.{Tenacity}
use va_enp_api.Retry.Outcomes.{Reaches, Tries-returned, redis_retry-Tries}
use va_enp_api.Redis.Client.{
  attempt_token, consume_rate_limit_token, commands, take_token, translate_fault,
}

-- The specification: a counter that starts at the limit, grants while it is above 0, and counts
-- what it grants.
abbrev pub remaining : ℤ → Option Entry → ℤ
remaining limit none = limit
remaining limit (some e) = e.value

abbrev pub is_volatile : Option Entry → Bool
is_volatile none = true
is_volatile (some e) = e.volatile

abbrev pub counted : ℤ → Option Entry → Bool → Entry
counted limit e granted = record {
  value = if granted then remaining limit e -ℤ pos 1 else remaining limit e;
  volatile = is_volatile e;
}

pub reply-set_entry :
    (limit : ℤ) (e : Option Entry) → reply (set_entry limit e) ≡ some (number (remaining limit e))
unfolding set_entry
reply-set_entry limit none = refl
reply-set_entry limit (some e) = refl

set_entry-counted :
    (limit : ℤ) (e : Option Entry) → set_entry limit e ≡ some (counted limit e false)
unfolding set_entry
set_entry-counted limit none = refl
set_entry-counted limit (some e) = refl

decr-set_entry :
    (limit : ℤ) (e : Option Entry) → decr_entry (set_entry limit e) ≡ some (counted limit e true)
unfolding set_entry decr_entry
decr-set_entry limit none = refl
decr-set_entry limit (some e) = refl

pub ltb_pos : (n : ℕ) → ltb_ℤ (pos 0) (pos n) ≡ true → 0 < n
ltb_pos n h = ground arith

pub not_ltb_pos : (n : ℕ) → ltb_ℤ (pos 0) (pos n) ≡ false → n ≡ 0
not_ltb_pos n h = ground arith

pub pos_sub_one : (n : ℕ) → 0 < n → pos n -ℤ pos 1 ≡ pos (n - 1)
unfolding ◌-ℤ◌
pos_sub_one n h = ground arith

module _ {W : Type 0} (redis : Redis W) where
  take-cases :
      (key : String) (v : ℤ) (w w' : W) (granted : Bool)
      → take_token redis key (some (number v)) w ≡ (ok granted, w')
      → ((ltb_ℤ (pos 0) v ≡ false) × (granted ≡ false) × (w' ≡ w))
        ⊎ ((ltb_ℤ (pos 0) v ≡ true) × (granted ≡ true) × (redis.decrby key w ≡ (ok tt, w')))
  take-cases key v w w' granted h = elim (Exec-cases (redis.decrby key) w) [
    | inl (_, w₁, e) ↦ ground arith
    | inr (x, w₁, e) ↦ ground arith
  ]

module _ {W : Type 0} (redis : Redis W) (laws : IsRedis redis) where
  -- What the counter and the other keys are after an attempt.
  abbrev pub Counts : String → ℤ → W → W → Bool → Type 0
  Counts key limit w w' granted =
      (granted ≡ ltb_ℤ (pos 0) (remaining limit (laws.entry key w)))
      × (laws.entry key w' ≡ some (counted limit (laws.entry key w) granted))
      × ((j : String) → str_eq j key ≡ false → laws.entry j w' ≡ laws.entry j w)

  pub entry_after_set :
      (key : String) (limit window : ℤ) (w w₁ : W)
      → redis.set_nx key limit window w ≡ (ok tt, w₁)
      → laws.entry key w₁ ≡ set_entry limit (laws.entry key w)
  entry_after_set key limit window w w₁ e =
      laws.sets key limit window w w₁ key e
      ∙ ap (λ b. if b then set_entry limit (laws.entry key w) else laws.entry key w) (eq_refl key)

  denied-Counts :
      (key : String) (limit window : ℤ) (w w₁ w₂ : W) (current : Option Reply)
      → redis.set_nx key limit window w ≡ (ok tt, w₁)
      → redis.get key w₁ ≡ (ok current, w₂)
      → ltb_ℤ (pos 0) (remaining limit (laws.entry key w)) ≡ false
      → Counts key limit w w₂ false
  denied-Counts key limit window w w₁ w₂ current e₁ e₂ low = (
    sym low,
    laws.get_keeps key w₁ w₂ current key e₂
        ∙ entry_after_set key limit window w w₁ e₁
        ∙ set_entry-counted limit (laws.entry key w),
    λ j other.
        laws.get_keeps key w₁ w₂ current j e₂
        ∙ laws.sets key limit window w w₁ j e₁
        ∙ ap (λ b. if b then set_entry limit (laws.entry j w) else laws.entry j w) other,
  )

  granted-Counts :
      (key : String) (limit window : ℤ) (w w₁ w₂ w' : W) (current : Option Reply)
      → redis.set_nx key limit window w ≡ (ok tt, w₁)
      → redis.get key w₁ ≡ (ok current, w₂)
      → redis.decrby key w₂ ≡ (ok tt, w')
      → ltb_ℤ (pos 0) (remaining limit (laws.entry key w)) ≡ true
      → Counts key limit w w' true
  granted-Counts key limit window w w₁ w₂ w' current e₁ e₂ e₃ high = (
    sym high,
    laws.decrs key w₂ w' key e₃
        ∙ ap (λ b. if b then decr_entry (laws.entry key w₂) else laws.entry key w₂) (eq_refl key)
        ∙ ap decr_entry
            (laws.get_keeps key w₁ w₂ current key e₂ ∙ entry_after_set key limit window w w₁ e₁)
        ∙ decr-set_entry limit (laws.entry key w),
    λ j other.
        laws.decrs key w₂ w' j e₃
        ∙ ap (λ b. if b then decr_entry (laws.entry j w₂) else laws.entry j w₂) other
        ∙ laws.get_keeps key w₁ w₂ current j e₂
        ∙ laws.sets key limit window w w₁ j e₁
        ∙ ap (λ b. if b then set_entry limit (laws.entry j w) else laws.entry j w) other,
  )

  -- An attempt that returns grants a token exactly when the counter, the limit if there is none, is
  -- above 0; it then leaves the counter one lower, and otherwise as it was; it touches no other key.
  pub attempt_token-Counts :
      (key : String) (limit window : ℤ) (w w' : W) (granted : Bool)
      → attempt_token redis key limit window w ≡ (ok granted, w')
      → Counts key limit w w' granted
  unfolding attempt_token
  attempt_token-Counts key limit window w w' granted h =
      let done = catch-raise-ok (commands redis key limit window) translate_fault w h in
      let (_, w₁, e₁, after_set) =
        >>=-eq-ok (redis.set_nx key limit window) (λ _. redis.get key >>= take_token redis key) w
          done in
      let (current, w₂, e₂, taken) =
        >>=-eq-ok (redis.get key) (take_token redis key) w₁ after_set in
      let read : current ≡ some (number (remaining limit (laws.entry key w))) =
        laws.gets key w₁ w₂ current e₂
        ∙ ap reply (entry_after_set key limit window w w₁ e₁)
        ∙ reply-set_entry limit (laws.entry key w) in
      elim (take-cases redis key (remaining limit (laws.entry key w)) w₂ w' granted
        (ap (λ c. take_token redis key c w₂) (sym read) ∙ taken)) [
          | inl (low, denied, same) ↦
              subst₂ (λ g z. Counts key limit w z g) (sym denied) (sym same)
                (denied-Counts key limit window w w₁ w₂ current e₁ e₂ low)
          | inr (high, granted', e₃) ↦
              subst (λ g. Counts key limit w w' g) (sym granted')
                (granted-Counts key limit window w w₁ w₂ w' current e₁ e₂ e₃ high)
        ]

  -- A call that returns is its last attempt, the third at most: it grants a token exactly when the counter, the limit if
  -- there is none, was above 0 then; that attempt left the counter one lower, and otherwise as it was,
  -- and touched no other key.
  pub consume_rate_limit_token-Counts :
      (tenacity : Tenacity W) (key : String) (limit window : ℤ) (w w' : W) (granted : Bool)
      → consume_rate_limit_token redis tenacity key limit window w ≡ (ok granted, w')
      → (w₀ : W) × Reaches tenacity.pause (attempt_token redis key limit window) 2 w w₀
        × Counts key limit w₀ w' granted
  unfolding consume_rate_limit_token
  consume_rate_limit_token-Counts tenacity key limit window w w' granted h =
      let m = attempt_token redis key limit window in
      let (w₀, reached, e) = Tries-returned (redis_retry-Tries tenacity m w) h in
      (w₀, reached, attempt_token-Counts key limit window w₀ w' granted e)

  -- A client that calls for one key again and again: each call returned, and nothing else happened to
  -- the key between the calls. `grants` is how many tokens were granted.
  pub data Calls (key : String) (limit window : ℤ) : ℕ → W → ℕ → W → Type 0 where
    no_call : {w : W} → Calls key limit window zero w zero w
    call :
        {n grants : ℕ} {w w₁ w₂ : W} (granted : Bool)
        → attempt_token redis key limit window w ≡ (ok granted, w₁)
        → Calls key limit window n w₁ grants w₂
        → Calls key limit window (suc n) w (if granted then suc grants else grants) w₂

  -- Of attempts for one key that all return and follow one another with nothing in between, as many
  -- are granted as there are tokens left (the limit, if there is no counter) and no more: the
  -- smaller one of that number and the number of attempts.
  pub Calls-grants :
      (key : String) (limit window : ℤ) (left : ℕ) {n grants : ℕ} {w w' : W}
      → remaining limit (laws.entry key w) ≡ pos left
      → Calls key limit window n w grants w'
      → grants ≡ min n left
  Calls-grants key limit window left r no_call = omega arith
  Calls-grants key limit window left r (call {w = w} {w₁ = w₁} true e rest) =
      let (high, after, _) = attempt_token-Counts key limit window w w₁ true e in
      let some_left = ltb_pos left (sym (high ∙ ap (ltb_ℤ (pos 0)) r)) in
      let less : remaining limit (laws.entry key w₁) ≡ pos (left - 1) =
        ap (remaining limit) after ∙ ap (λ z. z -ℤ pos 1) r ∙ pos_sub_one left some_left in
      omega (arith, Calls-grants key limit window (left - 1) less rest)
  Calls-grants key limit window left r (call {w = w} {w₁ = w₁} false e rest) =
      let (low, after, _) = attempt_token-Counts key limit window w w₁ false e in
      let none_left = not_ltb_pos left (sym (low ∙ ap (ltb_ℤ (pos 0)) r)) in
      let same : remaining limit (laws.entry key w₁) ≡ pos left = ap (remaining limit) after ∙ r in
      omega (arith, Calls-grants key limit window left same rest)
