-- ===== src/Redis/Expiry.antt =====
-- A key that expires between two commands of `consume_rate_limit_token`,
-- app/clients/redis_client.py.
use mathlib.Core.Path.{subst₂}
use va_enp_api.Prelude.{
  String, ◌≤◌, ◌≡◌, refl, sym, ap, ◌∙◌, subst, Bool, true, false, Option, none, some, arith,
}
use va_enp_api.Prelude.Int.{ℤ, pos, ltb_ℤ, ◌-ℤ◌}
use va_enp_api.Effects.{ok}
use va_enp_api.Redis.Server.{Entry, set_entry, decr_entry, Redis, IsRedis}
use va_enp_api.Redis.Client.{attempt_token}
use va_enp_api.Redis.Counting.{remaining, counted, attempt_token-Counts}
use va_enp_api.Redis.Phases.{
  Phase, setting, getting, decrementing, returned, Shared, command, after_get, Step, runs, holds,
  total, total-split,
}

-- A request whose three commands follow one another.
abbrev pub then_command : ℤ → Phase × Option Entry → Phase × Option Entry
then_command limit (p, e) = command limit p e

abbrev pub run_alone : ℤ → Option Entry → Phase × Option Entry
run_alone limit e = then_command limit (then_command limit (command limit setting e))

after_set : (limit : ℤ) (e : Option Entry) → set_entry limit e ≡ some (counted limit e false)
unfolding set_entry
after_set limit none = refl
after_set limit (some e) = refl

run_alone-counted :
    (limit : ℤ) (e : Option Entry)
    → let granted = ltb_ℤ (pos 0) (remaining limit e) in
      run_alone limit e ≡ (returned granted, some (counted limit e granted))
unfolding decr_entry
run_alone-counted limit e = rw after_set (split (ltb_ℤ (pos 0) (remaining limit e)))
  where
    split :
        (b : Bool)
        → then_command limit (after_get (ok b), some (counted limit e false))
          ≡ (returned b, some (counted limit e b))
    split true = refl
    split false = refl

-- An attempt that returns did to the counter of its key what the three commands of one request do,
-- one after another, and returned what they return.
pub attempt_token-run_alone :
    {W : Type 0} (redis : Redis W) (laws : IsRedis redis) (key : String) (limit window : ℤ)
    (w w' : W) (granted : Bool)
    → attempt_token redis key limit window w ≡ (ok granted, w')
    → run_alone limit (laws.entry key w) ≡ (returned granted, laws.entry key w')
attempt_token-run_alone redis laws key limit window w w' granted h =
    let (decided, after, _) = attempt_token-Counts redis laws key limit window w w' granted h in
    run_alone-counted limit (laws.entry key w)
    ∙ ap (λ b. (returned b, some (counted limit (laws.entry key w) b))) (sym decided)
    ∙ ap (λ o. (returned granted, o)) (sym after)

-- The commands of the requests, and the expiry of a key that has a time to live.
pub data Run (limit : ℤ) (s : Shared) : Shared → Type 0 where
  here : Run limit s s
  steps : {t u : Shared} → Run limit s t → Step limit t u → Run limit s u
  expires :
      {t u : Shared} {e : Entry}
      → Run limit s t
      → t.entry ≡ some e
      → e.volatile ≡ true
      → u.entry ≡ none
      → u.requests ≡ t.requests
      → Run limit s u

-- A counter at 0 or below that has no time to live.
pub record IsStuckEntry (o : Option Entry) : Type 0 where
  pub e : Entry
  pub is_there : o ≡ some e
  pub spent : ltb_ℤ (pos 0) e.value ≡ false
  pub forever : e.volatile ≡ false

-- A `DECRBY` that finds the key expired leaves a stuck counter.
pub decrementing-IsStuckEntry : (limit : ℤ) → IsStuckEntry (command limit decrementing none).1
unfolding decr_entry ◌-ℤ◌
decrementing-IsStuckEntry limit = record {
  e = record { value = pos 0 -ℤ pos 1; volatile = false };
  is_there = refl;
  spent = refl;
  forever = refl;
}

record StaysStuck (limit : ℤ) (p : Phase) (o : Option Entry) : Type 0 where
  stuck : IsStuckEntry (command limit p o).1
  no_more : holds (command limit p o).0 ≤ holds p

spent_less : (v : ℤ) → ltb_ℤ (pos 0) v ≡ false → ltb_ℤ (pos 0) (v -ℤ pos 1) ≡ false
unfolding ◌-ℤ◌
spent_less v h = ground arith

stuck-StaysStuck :
    (limit : ℤ) (p : Phase) (e : Entry)
    → ltb_ℤ (pos 0) e.value ≡ false
    → e.volatile ≡ false
    → StaysStuck limit p (some e)
unfolding set_entry decr_entry
stuck-StaysStuck limit setting e spent forever = record {
  stuck = record { e = e; is_there = refl; spent = spent; forever = forever };
  no_more = omega arith;
}
stuck-StaysStuck limit getting e spent forever = record {
  stuck = record { e = e; is_there = refl; spent = spent; forever = forever };
  no_more = subst (λ b. holds (after_get (ok b)) ≤ 0) (sym spent) (omega arith);
}
stuck-StaysStuck limit decrementing e spent forever = record {
  stuck = record {
    e = record e { value = e.value -ℤ pos 1 };
    is_there = refl;
    spent = spent_less e.value spent;
    forever = forever;
  };
  no_more = omega arith;
}
stuck-StaysStuck limit (returned b) e spent forever = record {
  stuck = record { e = e; is_there = refl; spent = spent; forever = forever };
  no_more = omega arith;
}

command-StaysStuck :
    (limit : ℤ) (p : Phase) (o : Option Entry) → IsStuckEntry o → StaysStuck limit p o
command-StaysStuck limit p o s =
    subst (StaysStuck limit p) (sym s.is_there) (stuck-StaysStuck limit p s.e s.spent s.forever)

Step-stuck :
    (limit : ℤ) (s t : Shared)
    → IsStuckEntry s.entry
    → Step limit s t
    → IsStuckEntry t.entry × (total holds t.requests ≤ total holds s.requests)
Step-stuck limit s t stuck (runs before p after was now e) =
    let next = command-StaysStuck limit p s.entry stuck in
    (
      subst IsStuckEntry (sym e) next.stuck,
      subst₂ (λ k l. total holds l ≤ total holds k) (sym was) (sym now)
          (omega (
            arith,
            total-split holds before p after,
            total-split holds before (command limit p s.entry).0 after,
            next.no_more,
          )),
    )

stuck-ne-volatile :
    (o : Option Entry) (e : Entry) → IsStuckEntry o → o ≡ some e → e.volatile ≡ false
stuck-ne-volatile o e s h = ground arith

-- Once the counter of a key is at 0 or below with no time to live, it stays so, and no request is
-- granted that had not found its token before, however the requests and expiries go on.
pub Run-stuck :
    (limit : ℤ) (s t : Shared)
    → IsStuckEntry s.entry
    → Run limit s t
    → IsStuckEntry t.entry × (total holds t.requests ≤ total holds s.requests)
Run-stuck limit s t stuck here = (stuck, omega arith)
Run-stuck limit s t stuck (steps {t = u} r st) =
    let (stuck', fewer) = Run-stuck limit s u stuck r in
    let (stuck'', less) = Step-stuck limit u t stuck' st in (stuck'', omega arith)
Run-stuck limit s t stuck (expires {t = u} {e = e} r is_there volatile gone same) =
    let (stuck', fewer) = Run-stuck limit s u stuck r in
    let forever = stuck-ne-volatile u.entry e stuck' is_there in absurd (ground arith)
