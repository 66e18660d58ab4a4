-- ===== src/Redis/Answers.antt =====
-- An attempt of `consume_rate_limit_token` while Redis answers every command: app/clients/redis_client.py.
use va_enp_api.Prelude.{
  ◌≡◌, ◌∙◌, ap, String, Bool, true, false, Option, none, some, inl, inr, Bool-cases, arith,
}
use va_enp_api.Prelude.Int.{ℤ, pos, ltb_ℤ}
use va_enp_api.Effects.{ok, raise, ◌>>=◌, >>=-ok, catch-ok}
use va_enp_api.Retry.{Tenacity, policy, redis_retry}
use va_enp_api.Redis.Server.{Redis, IsRedis, Reply, number, reply}
use va_enp_api.Redis.Client.{
  attempt_token, consume_rate_limit_token, take_token, commands, translate_fault,
}
use va_enp_api.Redis.Counting.{
  remaining, reply-set_entry, entry_after_set, Counts, attempt_token-Counts,
}

module _ {W : Type 0} (redis : Redis W) where
  -- No command fails; `SET` is one with an expiry above 0, as Redis asks for.
  pub record AlwaysAnswers : Type 0 where
    pub sets :
        (key : String) (value expiry : ℤ) (w : W)
        → ltb_ℤ (pos 0) expiry ≡ true
        → (w' : W) × (redis.set_nx key value expiry w ≡ (ok tt, w'))
    pub gets :
        (key : String) (w : W) → (r : Option Reply) × (w' : W) × (redis.get key w ≡ (ok r, w'))
    pub decrs : (key : String) (w : W) → (w' : W) × (redis.decrby key w ≡ (ok tt, w'))

  take_token-answers :
      (answers : AlwaysAnswers) (key : String) (v : ℤ) (w : W)
      → (granted : Bool) × (w' : W) × (take_token redis key (some (number v)) w ≡ (ok granted, w'))
  take_token-answers answers key v w = elim (Bool-cases (ltb_ℤ (pos 0) v)) [
    | inl high ↦ let (w', e) = answers.decrs key w in (true, w', ground arith)
    | inr low ↦ (false, w, ground arith)
  ]

  module _ (laws : IsRedis redis) (answers : AlwaysAnswers) where
    attempt_token-answers :
        (key : String) (limit window : ℤ) (w : W)
        → ltb_ℤ (pos 0) window ≡ true
        → (granted : Bool) × (w' : W) × (attempt_token redis key limit window w ≡ (ok granted, w'))
    unfolding attempt_token
    attempt_token-answers key limit window w lasts =
        let (w₁, e₁) = answers.sets key limit window w lasts in
        let (current, w₂, e₂) = answers.gets key w₁ in
        let v = remaining limit (laws.entry key w) in
        let read : current ≡ some (number v) =
          laws.gets key w₁ w₂ current e₂
          ∙ ap reply (entry_after_set redis laws key limit window w w₁ e₁)
          ∙ reply-set_entry limit (laws.entry key w) in
        let (granted, w', e₃) = take_token-answers answers key v w₂ in
        let taken : take_token redis key current w₂ ≡ (ok granted, w') =
          ap (λ c. take_token redis key c w₂) read ∙ e₃ in
        let ran : commands redis key limit window w ≡ (ok granted, w') =
          >>=-ok (redis.set_nx key limit window) (λ _. redis.get key >>= take_token redis key) e₁
          ∙ >>=-ok (redis.get key) (take_token redis key) e₂
          ∙ taken in
        (
          granted,
          w',
          catch-ok (commands redis key limit window) (λ f. raise (translate_fault f)) ran,
        )

    -- A call returns at its first attempt, and counts.
    pub consume_rate_limit_token-answers :
        (tenacity : Tenacity W) (key : String) (limit window : ℤ) (w : W)
        → ltb_ℤ (pos 0) window ≡ true
        → (granted : Bool) × (w' : W) × (consume_rate_limit_token redis tenacity key limit window w
            ≡ (ok granted, w'))
          × Counts redis laws key limit w w' granted
    unfolding consume_rate_limit_token redis_retry
    consume_rate_limit_token-answers tenacity key limit window w lasts =
        let m = attempt_token redis key limit window in
        let (granted, w', e) = attempt_token-answers key limit window w lasts in
        (
          granted,
          w',
          tenacity.returns Bool (policy none 3) m w w' granted e,
          attempt_token-Counts redis laws key limit window w w' granted e,
        )
