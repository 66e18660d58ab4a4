-- ===== src/Redis/Tests.antt =====
-- Runs of the rate limit counters in memory.
use va_enp_api.Prelude.{
  ◌+◌, ◌-◌, ◌≤◌, ◌≡◌, refl, true, false, if◌then◌else◌, Option, none, some, [], ◌∷◌, arith, str_eq,
}
use va_enp_api.Prelude.Int.{ℤ, pos, negsuc, ◌-ℤ◌}
use va_enp_api.Effects.{ok}
use va_enp_api.Retry.{redis_retry}
use va_enp_api.Retry.Samples.{simple_tenacity}
use va_enp_api.Redis.Server.{Entry, set_entry, decr_entry}
use va_enp_api.Redis.Client.{attempt_token, consume_rate_limit_token}
use va_enp_api.Redis.Counting.{Calls, no_call, call}
use va_enp_api.Redis.Phases.{
  Phase, setting, getting, decrementing, returned, Shared, runs, Window, start, then_step,
}
use va_enp_api.Redis.Interleaving.{Window-grants}
use va_enp_api.Redis.Expiry.{Run, here, steps, expires, IsStuckEntry, Run-stuck}
use va_enp_api.Redis.Samples.{Keys, memory, memory_IsRedis, empty_keys}

abbrev with_counter : ℤ → Keys
with_counter n j = if str_eq j "a" then some (record { value = n; volatile = true }) else none

abbrev after_call : Keys → Keys
after_call w = (attempt_token memory "a" (pos 2) (pos 30) w).1

three-Calls :
    Calls memory memory_IsRedis "a"
      (pos 2)
      (pos 30)
      3
      empty_keys
      2
      (after_call (after_call (after_call empty_keys)))
unfolding attempt_token set_entry decr_entry ◌-ℤ◌
three-Calls = call true refl (call true refl (call false refl no_call))

consumed :
    consume_rate_limit_token memory
      (simple_tenacity Keys)
      "a"
      (pos 2)
      (pos 30)
      (with_counter (pos 1))
    ≡ (ok true, (attempt_token memory "a" (pos 2) (pos 30) (with_counter (pos 1))).1)
unfolding consume_rate_limit_token attempt_token redis_retry set_entry decr_entry ◌-ℤ◌
consumed = refl

granted_once :
    attempt_token memory "a" (pos 2) (pos 30) (with_counter (pos 1))
    ≡ (ok true, (attempt_token memory "a" (pos 2) (pos 30) (with_counter (pos 1))).1)
unfolding attempt_token set_entry decr_entry ◌-ℤ◌
granted_once = refl

abbrev shared : Option Entry → Phase → Phase → Shared
shared e p q = record { entry = e; requests = p ∷ q ∷ [] }

abbrev counter : ℤ → Option Entry
counter v = some (record { value = v; volatile = true })

-- Two requests for the one token of a window: both find it before either counts it.
both_granted :
    Window
      (pos 1)
      2
      (shared none setting setting)
      (shared (counter (negsuc 0)) (returned true) (returned true))
unfolding set_entry decr_entry ◌-ℤ◌
both_granted =
    then_step {t = shared (counter (pos 0)) (returned true) decrementing}
      (then_step {t = shared (counter (pos 1)) decrementing decrementing}
        (then_step {t = shared (counter (pos 1)) decrementing getting}
          (then_step {t = shared (counter (pos 1)) getting getting}
            (then_step {t = shared (counter (pos 1)) getting setting}
              (then_step {t = shared none setting setting} (start (omega arith))
                (runs [] setting (setting ∷ []) refl refl refl) (omega arith))
              (runs (getting ∷ []) setting [] refl refl refl) (omega arith))
            (runs [] getting (getting ∷ []) refl refl refl) (omega arith))
          (runs (decrementing ∷ []) getting [] refl refl refl) (omega arith))
        (runs [] decrementing (decrementing ∷ []) refl refl refl) (omega arith))
      (runs (returned true ∷ []) decrementing [] refl refl refl) (omega arith)

Window-grants_example : 2 ≤ 1 + (2 - 1)
Window-grants_example =
    Window-grants 1 2 (shared none setting setting)
      (shared (counter (negsuc 0)) (returned true) (returned true)) refl refl both_granted

abbrev stuck : Option Entry
stuck = some (record { value = negsuc 0; volatile = false })

-- The key expires between `GET` and `DECRBY`.
left_stuck : Run (pos 5) (shared none setting setting) (shared stuck (returned true) setting)
unfolding set_entry decr_entry ◌-ℤ◌
left_stuck =
    steps {t = shared none decrementing setting}
      (expires {t = shared (counter (pos 5)) decrementing setting}
        (steps {t = shared (counter (pos 5)) getting setting}
          (steps {t = shared none setting setting} here
            (runs [] setting (setting ∷ []) refl refl refl))
          (runs [] getting (setting ∷ []) refl refl refl))
        refl refl refl refl)
      (runs [] decrementing (setting ∷ []) refl refl refl)

-- The next request is denied.
denied_next :
    Run
      (pos 5)
      (shared stuck (returned true) setting)
      (shared stuck (returned true) (returned false))
unfolding set_entry
denied_next =
    steps {t = shared stuck (returned true) getting}
      (steps {t = shared stuck (returned true) setting} here
        (runs (returned true ∷ []) setting [] refl refl refl))
      (runs (returned true ∷ []) getting [] refl refl refl)

Run-stuck_example : IsStuckEntry stuck × (1 ≤ 1)
Run-stuck_example =
    Run-stuck (pos 5) (shared stuck (returned true) setting)
      (shared stuck (returned true) (returned false))
      (record {
        e = record { value = negsuc 0; volatile = false };
        is_there = refl;
        spent = refl;
        forever = refl;
      })
      denied_next
