-- ===== src/Redis/Phases.antt =====
-- Requests that call `consume_rate_limit_token` of app/clients/redis_client.py for one key at the
-- same time. Its three commands are separate, so the commands of other requests, and the expiry of
-- the key, may fall between them.
use va_enp_api.Prelude.{ℕ, ◌+◌, ◌≤◌, ◌≡◌, Bool, true, false, Option, List, [], ◌∷◌, ◌++◌, arith}
use va_enp_api.Prelude.Int.{ℤ}
use va_enp_api.Effects.{Result, ok, err}
use va_enp_api.Redis.Server.{RedisFault, Entry, set_entry, decr_entry, reply}
use va_enp_api.Redis.Client.{is_positive}

-- Where a request stands: before `SET`, before `GET`, before `DECRBY` (`granted`: its `GET` found a
-- token), or returned, with what it returned.
pub data Phase : Type 0 where
  setting getting decrementing : Phase
  returned : Bool → Phase

pub record Shared : Type 0 where
  pub entry : Option Entry
  pub requests : List Phase

-- Where a request goes on after its `GET`.
abbrev pub after_get : Result RedisFault Bool → Phase
after_get (ok true) = decrementing
after_get (ok false) = returned false
after_get (err _) = returned false

-- One command of one request.
abbrev pub command : ℤ → Phase → Option Entry → Phase × Option Entry
command limit setting e = (getting, set_entry limit e)
command limit getting e = (after_get (is_positive (reply e)), e)
command limit decrementing e = (returned true, decr_entry e)
command limit (returned b) e = (returned b, e)

-- A command of one of the requests.
pub data Step (limit : ℤ) (s t : Shared) : Type 0 where
  runs :
      (before : List Phase) (p : Phase) (after : List Phase)
      → s.requests ≡ before ++ (p ∷ after)
      → t.requests ≡ before ++ ((command limit p s.entry).0 ∷ after)
      → t.entry ≡ (command limit p s.entry).1
      → Step limit s t

-- Requests that are between `SET` and their return.
abbrev pub active : Phase → ℕ
active getting = 1
active decrementing = 1
active _ = 0

abbrev pub total : (Phase → ℕ) → List Phase → ℕ
total f [] = 0
total f (p ∷ ps) = f p + total f ps

-- Steps while the key does not expire, those of one window, with `most` requests active at a time.
pub data Window (limit : ℤ) (most : ℕ) (s : Shared) : Shared → Type 0 where
  start : total active s.requests ≤ most → Window limit most s s
  then_step :
      {t u : Shared}
      → Window limit most s t
      → Step limit t u
      → total active u.requests ≤ most
      → Window limit most s u

-- Requests that have a token, or have found one and have yet to count it.
abbrev pub holds : Phase → ℕ
holds decrementing = 1
holds (returned true) = 1
holds _ = 0

abbrev pub counted_off : Phase → ℕ
counted_off (returned true) = 1
counted_off _ = 0

total-append : (f : Phase → ℕ) (xs ys : List Phase) → total f (xs ++ ys) ≡ total f xs + total f ys
total-append f [] ys = omega arith
total-append f (x ∷ xs) ys = omega (arith, total-append f xs ys)

pub total-split :
    (f : Phase → ℕ) (xs : List Phase) (p : Phase) (ys : List Phase)
    → total f (xs ++ (p ∷ ys)) ≡ total f xs + f p + total f ys
total-split f xs p ys = omega (arith, total-append f xs (p ∷ ys))
