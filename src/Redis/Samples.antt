-- ===== src/Redis/Samples.antt =====
-- A Redis in memory, which refuses an expiry that is not above 0 and fails in no other way: every
-- key's entry.
use va_enp_api.Prelude.{
  String, ◌≡◌, refl, true, Option, none, arith, str_eq, if◌then◌else◌, sym, ap, Bool-cases, inl,
  inr,
}
use va_enp_api.Prelude.Int.{ℤ, pos, ltb_ℤ}
use va_enp_api.Effects.{ok, err}
use va_enp_api.Redis.Server.{
  redis_error, Reply, Entry, set_entry, decr_entry, reply, Redis, IsRedis,
}

abbrev pub Keys : Type 0
Keys = String → Option Entry

abbrev set_key : String → ℤ → Keys → Keys
set_key k v w j = if str_eq j k then set_entry v (w j) else w j

abbrev decr_key : String → Keys → Keys
decr_key k w j = if str_eq j k then decr_entry (w j) else w j

abbrev pub memory : Redis Keys
memory = record {
  set_nx = λ k v ex w. if ltb_ℤ (pos 0) ex then (ok tt, set_key k v w) else (err redis_error, w);
  get = λ k w. (ok (reply (w k)), w);
  decrby = λ k w. (ok tt, decr_key k w);
  aclose = λ w. (ok tt, w);
  disconnect = λ w. (ok tt, w);
}

abbrev entry_at : {A : Type 0} → String → A × Keys → Option Entry
entry_at j p = p.1 j

pub memory_sets :
    (k : String) (v ex : ℤ) (w w' : Keys) (j : String)
    → memory.set_nx k v ex w ≡ (ok tt, w')
    → w' j ≡ set_key k v w j
memory_sets k v ex w w' j e = elim (Bool-cases (ltb_ℤ (pos 0) ex)) [
  | inl lasts ↦ sym (ap (entry_at j) (rw lasts at e))
  | inr ends ↦ absurd (ground arith)
]

pub memory_lasts :
    (k : String) (v ex : ℤ) (w : Keys)
    → ltb_ℤ (pos 0) ex ≡ true
    → memory.set_nx k v ex w ≡ (ok tt, set_key k v w)
memory_lasts k v ex w lasts = rw lasts refl

pub memory_gets :
    (k : String) (w w' : Keys) (c : Option Reply) → memory.get k w ≡ (ok c, w') → c ≡ reply (w k)
memory_gets k w w' c e = ground arith

pub memory_get_keeps :
    (k : String) (w w' : Keys) (c : Option Reply) (j : String)
    → memory.get k w ≡ (ok c, w')
    → w' j ≡ w j
memory_get_keeps k w w' c j e = sym (ap (entry_at j) e)

pub memory_decrs :
    (k : String) (w w' : Keys) (j : String)
    → memory.decrby k w ≡ (ok tt, w')
    → w' j ≡ decr_key k w j
memory_decrs k w w' j e = sym (ap (entry_at j) e)

abbrev pub memory_IsRedis : IsRedis memory
memory_IsRedis = record {
  entry = λ j w. w j;
  sets = memory_sets;
  gets = memory_gets;
  get_keeps = memory_get_keeps;
  decrs = memory_decrs;
}

abbrev pub empty_keys : Keys
empty_keys j = none
