-- ===== src/Limits/Admissions.antt =====
-- How many requests of each caller a limiter of app/limits.py lets pass in a window.
use va_enp_api.Prelude.{
  ℕ, suc, min, ◌-◌, ◌<◌, ◌≡◌, refl, sym, ◌∙◌, ap, subst, String, Bool, true, false, ◌&&◌, some,
  List, [], ◌∷◌, inl, inr, Bool-cases, str_eq, eq_iff, if◌then◌else◌, arith,
}
use va_enp_api.Prelude.Int.{ℤ, pos, ltb_ℤ, ◌-ℤ◌}
use va_enp_api.Effects.{Exception, http_exception, Result, ok, err}
use va_enp_api.Retry.{Tenacity}
use va_enp_api.Redis.Server.{Redis, IsRedis}
use va_enp_api.Redis.Counting.{remaining, Counts, ltb_pos, not_ltb_pos, pos_sub_one}
use va_enp_api.Redis.Answers.{AlwaysAnswers, consume_rate_limit_token-answers}
use va_enp_api.Auth.Service.{State}
use va_enp_api.Limits.Strategies.{
  RateLimitConfig, windowed, get_key, calculate_window_expiry, is_allowed, get_error_message,
}
use va_enp_api.Limits.Limiter.{RateLimiter, enforce}

-- A request, by what its authentication left in its context.
pub record Request : Type 0 where
  pub request_id : String
  pub service_id : String
  pub api_key_id : String

abbrev pub state_of : {W : Type 0} → Request → W → State W
state_of r w = record {
  context = record {
    request_id = some r.request_id;
    service_id = some r.service_id;
    api_key_id = some r.api_key_id;
  };
  outside = w;
}

abbrev pub has_passed : Result Exception (Unit {0}) → Bool
has_passed (ok _) = true
has_passed (err _) = false

-- The requests that are counted under a key.
module _ (config : RateLimitConfig) where
  abbrev pub counter_of : Request → String
  counter_of r = get_key (windowed config) r.service_id r.api_key_id

  abbrev pub requests_of : String → List Request → ℕ
  requests_of key [] = 0
  requests_of key (r ∷ rs) =
      let rest = requests_of key rs in if str_eq key (counter_of r) then suc rest else rest

module _ {W : Type 0} (redis : Redis W) (tenacity : Tenacity W) (now : W → ℕ)
    (config : RateLimitConfig) (fail_open : Bool) where
  abbrev pub limiter : RateLimiter
  limiter = record { strategy = windowed config; fail_open = fail_open }

  -- The requests go through the limiter one after another. How many of those under the key pass?
  pub passes_of : String → List Request → W → ℕ
  passes_of key [] w = 0
  passes_of key (r ∷ rs) w =
      let (result, s) = enforce redis tenacity now limiter (state_of r w) in
      let rest = passes_of key rs s.outside in
      if str_eq key (counter_of config r) && has_passed result then suc rest else rest

  module _ (laws : IsRedis redis) (answers : AlwaysAnswers redis)
      (expiry : (w : W)
        → (z : ℤ) × (calculate_window_expiry config (now w) ≡ ok z)
          × (ltb_ℤ (pos 0) z ≡ true)) where
    is_allowed-Counts :
        (r : Request) (w : W)
        → (granted : Bool) × (w' : W) × (is_allowed redis tenacity now
              (windowed config)
              r.service_id
              r.api_key_id
              w
            ≡ (ok granted, w'))
          × Counts redis laws (counter_of config r) config.limit w w' granted
    unfolding is_allowed
    is_allowed-Counts r w =
        let (z, e, lasts) = expiry w in
        let (granted, w', consumed, counts) =
          consume_rate_limit_token-answers redis laws answers tenacity (counter_of config r)
            config.limit z w lasts in
        (granted, w', ground arith, counts)

    abbrev refusal : Exception
    refusal = http_exception 429 (get_error_message (windowed config))

    enforce-Counts :
        (r : Request) (w : W)
        → (granted : Bool) × (w' : W) × (enforce redis tenacity now limiter (state_of r w)
            ≡ (if granted then ok tt else err refusal, state_of r w'))
          × Counts redis laws (counter_of config r) config.limit w w' granted
    unfolding enforce
    enforce-Counts r w =
        let (granted, w', allowed, counts) = is_allowed-Counts r w in
        (
          granted,
          w',
          elim (Bool-cases granted) [ inl e ↦ ground arith | inr e ↦ ground arith ],
          counts,
        )

    passes_of-step :
        (key : String) (r : Request) (rs : List Request) (w w' : W) (granted : Bool)
        → enforce redis tenacity now limiter (state_of r w)
          ≡ (if granted then ok tt else err refusal, state_of r w')
        → passes_of key (r ∷ rs) w ≡ (
            if str_eq key (counter_of config r) && granted
            then suc (passes_of key rs w')
            else passes_of key rs w')
    unfolding passes_of
    passes_of-step key r rs w w' true h = rw h refl
    passes_of-step key r rs w w' false h = rw h refl

    -- The tokens that are left after a request.
    after_passing :
        (key : String) (left : ℕ) (w w' : W)
        → remaining config.limit (laws.entry key w) ≡ pos left
        → Counts redis laws key config.limit w w' true
        → (0 < left) × (remaining config.limit (laws.entry key w') ≡ pos (left - 1))
    after_passing key left w w' r (g, after, others) =
        let some_left = ltb_pos left (sym (g ∙ ap (ltb_ℤ (pos 0)) r)) in
        (
          some_left,
          ap (remaining config.limit) after ∙ ap (λ z. z -ℤ pos 1) r ∙ pos_sub_one left some_left,
        )

    after_refusal :
        (key : String) (left : ℕ) (w w' : W)
        → remaining config.limit (laws.entry key w) ≡ pos left
        → Counts redis laws key config.limit w w' false
        → (left ≡ 0) × (remaining config.limit (laws.entry key w') ≡ pos left)
    after_refusal key left w w' r (g, after, others) =
        (not_ltb_pos left (sym (g ∙ ap (ltb_ℤ (pos 0)) r)), ap (remaining config.limit) after ∙ r)

    -- A request of the key, before those that come after it.
    module _ (key : String) (q : Request) (rs : List Request) (left : ℕ) (w w' : W)
        (r : remaining config.limit (laws.entry key w) ≡ pos left)
        (rest : (k : ℕ)
          → remaining config.limit (laws.entry key w') ≡ pos k
          → passes_of key rs w' ≡ min (requests_of config key rs) k) where
      own_request :
          (granted : Bool)
          → str_eq key (counter_of config q) ≡ true
          → enforce redis tenacity now limiter (state_of q w)
            ≡ (if granted then ok tt else err refusal, state_of q w')
          → Counts redis laws key config.limit w w' granted
          → passes_of key (q ∷ rs) w ≡ min (requests_of config key (q ∷ rs)) left
      own_request true own e counts =
          let (some_left, less) = after_passing key left w w' r counts in
          let later = rest (left - 1) less in
          passes_of-step key q rs w w' true e ∙ rw own (omega (arith, later))
      own_request false own e counts =
          let (none_left, same) = after_refusal key left w w' r counts in
          let later = rest left same in
          passes_of-step key q rs w w' false e ∙ rw own (omega (arith, later))

      other_request :
          (granted : Bool)
          → str_eq key (counter_of config q) ≡ false
          → enforce redis tenacity now limiter (state_of q w)
            ≡ (if granted then ok tt else err refusal, state_of q w')
          → laws.entry key w' ≡ laws.entry key w
          → passes_of key (q ∷ rs) w ≡ min (requests_of config key (q ∷ rs)) left
      other_request granted other e kept =
          passes_of-step key q rs w w' granted e
          ∙ rw other (rest left (ap (remaining config.limit) kept ∙ r))

    -- While Redis answers every command and no counter expires, and the limiter's expiry is above 0
    -- whatever the time, as that of a fixed period is, of requests that go through it one after another, those counted under a key pass until as many have passed as there
    -- were tokens left for it (the limit, if there was no counter), whatever the others do.
    pub passes_of-eq-min :
        (key : String) (rs : List Request) (left : ℕ) (w : W)
        → remaining config.limit (laws.entry key w) ≡ pos left
        → passes_of key rs w ≡ min (requests_of config key rs) left
    unfolding passes_of
    passes_of-eq-min key [] left w r = omega arith
    passes_of-eq-min key (q ∷ rs) left w r =
        let (granted, w', e, counts) = enforce-Counts q w in
        let rest = λ (k : ℕ). passes_of-eq-min key rs k w' in
        elim (Bool-cases (str_eq key (counter_of config q))) [
          | inl own ↦
              let same = (eq_iff key (counter_of config q)).0 own in
              own_request key q rs left w w' r rest granted own e
                (subst (λ j. Counts redis laws j config.limit w w' granted) (sym same) counts)
          | inr other ↦ other_request key q rs left w w' r rest granted other e (counts.2 key other)
        ]
