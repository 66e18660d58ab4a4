-- ===== src/Redis/Interleaving.antt =====
-- How many requests are granted when the commands of `consume_rate_limit_token` of
-- app/clients/redis_client.py interleave, while the key does not expire.
use va_enp_api.Prelude.{
  ℕ, ◌+◌, ◌-◌, ◌≤◌, ◌≡◌, sym, subst, true, false, Option, none, some, List, [], ◌∷◌, ◌++◌, arith,
  Bool-cases, inl, inr,
}
use mathlib.Core.Path.{subst₂}
use va_enp_api.Prelude.Int.{ℤ, pos, ltb_ℤ, ◌<ℤ◌, int_laws, pos_part, neg_part}
use va_enp_api.Effects.{ok}
use va_enp_api.Redis.Server.{Entry, set_entry, decr_entry}
use va_enp_api.Redis.Phases.{
  Phase, setting, getting, decrementing, returned, Shared, after_get, command, Step, runs, active,
  total, Window, start, then_step, holds, counted_off, total-split,
}

-- The counter is the limit less the requests that have been counted off.
abbrev Tally : ℕ → Option Entry → List Phase → Type 0
Tally limit none requests = total holds requests ≡ 0
Tally limit (some e) requests =
    pos_part e.value + total counted_off requests ≡ limit + neg_part e.value

record IsBounded (limit most : ℕ) (entry : Option Entry) (requests : List Phase) : Type 0 where
  tally : Tally limit entry requests
  bound : total holds requests ≤ limit + (most - 1)

-- The measures of a list of requests that is split at one of them.
record Measured (before : List Phase) (p : Phase) (after : List Phase) : Type 0 where
  held : total holds (before ++ (p ∷ after)) ≡ total holds before + holds p + total holds after
  off :
      total counted_off (before ++ (p ∷ after))
      ≡ total counted_off before + counted_off p + total counted_off after
  busy : total active (before ++ (p ∷ after)) ≡ total active before + active p + total active after

measure : (before : List Phase) (p : Phase) (after : List Phase) → Measured before p after
measure before p after = record {
  held = total-split holds before p after;
  off = total-split counted_off before p after;
  busy = total-split active before p after;
}

counted_off-le-holds : (p : Phase) → counted_off p ≤ holds p
counted_off-le-holds p = ground arith

holds-le-active : (p : Phase) → holds p ≤ counted_off p + active p
holds-le-active p = ground arith

total-counted_off-le : (ps : List Phase) → total counted_off ps ≤ total holds ps
total-counted_off-le [] = omega arith
total-counted_off-le (p ∷ ps) = omega (arith, total-counted_off-le ps, counted_off-le-holds p)

total-holds-le : (ps : List Phase) → total holds ps ≤ total counted_off ps + total active ps
total-holds-le [] = omega arith
total-holds-le (p ∷ ps) = omega (arith, total-holds-le ps, holds-le-active p)

module _ (limit most : ℕ) (before after : List Phase) where
  abbrev Next : Phase → Option Entry → Type 0
  Next p e =
      IsBounded limit most (command (pos limit) p e).1
        (before ++ ((command (pos limit) p e).0 ∷ after))

  setting-Next :
      (e : Option Entry) → IsBounded limit most e (before ++ (setting ∷ after)) → Next setting e
  unfolding set_entry
  setting-Next none h =
      let m = measure before setting after in
      let m' = measure before getting after in
      let off = total-counted_off-le (before ++ (setting ∷ after)) in
      record {
        tally = omega (arith, m.off, m'.off, off, h.tally);
        bound = omega (arith, m.held, m'.held, h.bound);
      }
  setting-Next (some e) h =
      let m = measure before setting after in
      let m' = measure before getting after in
      record {
        tally = omega (arith, m.off, m'.off, h.tally);
        bound = omega (arith, m.held, m'.held, h.bound);
      }

  decrementing-Next :
      (e : Option Entry)
      → IsBounded limit most e (before ++ (decrementing ∷ after))
      → Next decrementing e
  unfolding decr_entry
  decrementing-Next none h =
      let m = measure before decrementing after in absurd (omega (arith, m.held, h.tally))
  decrementing-Next (some e) h =
      let m = measure before decrementing after in
      let m' = measure before (returned true) after in
      record {
        tally = omega (int_laws, m.off, m'.off, h.tally);
        bound = omega (arith, m.held, m'.held, h.bound);
      }

  denied-IsBounded :
      (e : Option Entry)
      → IsBounded limit most e (before ++ (getting ∷ after))
      → IsBounded limit most e (before ++ (returned false ∷ after))
  denied-IsBounded none h =
      let m = measure before getting after in
      let m' = measure before (returned false) after in
      record {
        tally = omega (arith, m.held, m'.held, h.tally);
        bound = omega (arith, m.held, m'.held, h.bound);
      }
  denied-IsBounded (some e) h =
      let m = measure before getting after in
      let m' = measure before (returned false) after in
      record {
        tally = omega (arith, m.off, m'.off, h.tally);
        bound = omega (arith, m.held, m'.held, h.bound);
      }

  -- A request that finds a token: one more than were counted off, and those active beside it.
  found-IsBounded :
      (e : Entry)
      → pos 0 <ℤ e.value
      → total active (before ++ (getting ∷ after)) ≤ most
      → IsBounded limit most (some e) (before ++ (getting ∷ after))
      → IsBounded limit most (some e) (before ++ (decrementing ∷ after))
  found-IsBounded e some_left busy h =
      let m = measure before getting after in
      let m' = measure before decrementing after in
      record {
        tally = omega (arith, m.off, m'.off, h.tally);
        bound =
            omega
              (arith, m.off, m.busy, m'.held, h.tally, total-holds-le before, total-holds-le after);
      }

  getting-Next :
      (e : Option Entry)
      → total active (before ++ (getting ∷ after)) ≤ most
      → IsBounded limit most e (before ++ (getting ∷ after))
      → Next getting e
  getting-Next none busy h = denied-IsBounded none h
  getting-Next (some e) busy h = elim (Bool-cases (ltb_ℤ (pos 0) e.value)) [
    | inl some_left ↦
        let low : pos 0 <ℤ e.value = ground arith in
        subst (λ b. IsBounded limit most (some e) (before ++ (after_get (ok b) ∷ after)))
          (sym some_left) (found-IsBounded e low busy h)
    | inr none_left ↦
        subst (λ b. IsBounded limit most (some e) (before ++ (after_get (ok b) ∷ after)))
          (sym none_left) (denied-IsBounded (some e) h)
  ]

  command-IsBounded :
      (p : Phase) (e : Option Entry)
      → total active (before ++ (p ∷ after)) ≤ most
      → IsBounded limit most e (before ++ (p ∷ after))
      → Next p e
  command-IsBounded setting e busy h = setting-Next e h
  command-IsBounded getting e busy h = getting-Next e busy h
  command-IsBounded decrementing e busy h = decrementing-Next e h
  command-IsBounded (returned b) e busy h = h

Step-IsBounded :
    (limit most : ℕ) (s t : Shared)
    → Step (pos limit) s t
    → total active s.requests ≤ most
    → IsBounded limit most s.entry s.requests
    → IsBounded limit most t.entry t.requests
Step-IsBounded limit most s t (runs before p after here there e) busy h =
    let h' = command-IsBounded limit most before after p s.entry (rw here at busy) (rw here at h) in
    subst₂ (λ x l. IsBounded limit most x l) (sym e) (sym there) h'

Window-busy :
    {limit : ℤ} {most : ℕ} {s t : Shared} → Window limit most s t → total active t.requests ≤ most
Window-busy (start h) = h
Window-busy (then_step w st h) = h

Window-IsBounded :
    (limit most : ℕ) {s t : Shared}
    → IsBounded limit most s.entry s.requests
    → Window (pos limit) most s t
    → IsBounded limit most t.entry t.requests
Window-IsBounded limit most h (start b) = h
Window-IsBounded limit most h (then_step {t = t} {u = u} w st b) =
    Step-IsBounded limit most t u st (Window-busy w) (Window-IsBounded limit most h w)

-- However the commands of the requests for one key interleave in a window that began without a
-- counter and without a granted request, the requests that are granted are at most the limit plus
-- one less than the most requests that were active at a time.
pub Window-grants :
    (limit most : ℕ) (s t : Shared)
    → s.entry ≡ none
    → total holds s.requests ≡ 0
    → Window (pos limit) most s t
    → total counted_off t.requests ≤ limit + (most - 1)
Window-grants limit most s t fresh none_yet w =
    let b =
      Window-IsBounded limit most
        (let tally : Tally limit s.entry s.requests =
            subst (λ o. Tally limit o s.requests) (sym fresh) none_yet in
          record { tally = tally; bound = omega (arith, none_yet) })
        w in
    omega (arith, b.bound, total-counted_off-le t.requests)
