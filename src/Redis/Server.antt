-- ===== src/Redis/Server.antt =====
-- Redis as app/clients/redis_client.py sees it. The server and its driver are parameters; what is
-- assumed of a command that succeeds is its documented effect on the keys.
use va_enp_api.Prelude.{String, ◌≡◌, Bool, true, false, Option, none, some, str_eq, if◌then◌else◌}
use va_enp_api.Prelude.Int.{ℤ, pos, ◌-ℤ◌}
use va_enp_api.Effects.{Exception, ok, Exec}

-- The exceptions of the driver by the classes that the code names, and any other exception.
pub data RedisFault : Type 0 where
  connection_error timeout_error : RedisFault
  redis_error : RedisFault
  not_redis : Exception → RedisFault

-- What `GET` returns of a key that is there, decoded: the digits of an integer, or another text.
pub data Reply : Type 0 where
  number : ℤ → Reply
  text : String → Reply

-- A key of the program's: a number, and whether the key has a time to live.
pub record Entry : Type 0 where
  pub value : ℤ
  pub volatile : Bool

-- `SET key value EX seconds NX`
unfoldable pub set_entry : ℤ → Option Entry → Option Entry
set_entry limit none = some (record { value = limit; volatile = true })
set_entry limit (some e) = some e

-- `DECRBY key 1`, which makes a key that is not there, at 0 and with no time to live.
unfoldable pub decr_entry : Option Entry → Option Entry
decr_entry none = some (record { value = pos 0 -ℤ pos 1; volatile = false })
decr_entry (some e) = some (record e { value = e.value -ℤ pos 1 })

abbrev pub reply : Option Entry → Option Reply
reply none = none
reply (some e) = some (number e.value)

pub record Redis (W : Type 0) : Type 0 where
  pub set_nx : (name : String) (value expiry : ℤ) → Exec W RedisFault (Unit {0})
  pub get : String → Exec W RedisFault (Option Reply)
  pub decrby : (name : String) → Exec W RedisFault (Unit {0})
  pub aclose : Exec W RedisFault (Unit {0})
  pub disconnect : Exec W RedisFault (Unit {0})

-- The documented effect of the commands that succeed, at the instant when each is executed. A key
-- holds only what this program wrote.
pub record IsRedis {W : Type 0} (r : Redis W) : Type 0 where
  pub entry : String → W → Option Entry
  pub sets :
      (k : String) (v ex : ℤ) (w w' : W) (j : String)
      → r.set_nx k v ex w ≡ (ok tt, w')
      → entry j w' ≡ (if str_eq j k then set_entry v (entry j w) else entry j w)
  pub gets :
      (k : String) (w w' : W) (c : Option Reply) → r.get k w ≡ (ok c, w') → c ≡ reply (entry k w)
  pub get_keeps :
      (k : String) (w w' : W) (c : Option Reply) (j : String)
      → r.get k w ≡ (ok c, w')
      → entry j w' ≡ entry j w
  pub decrs :
      (k : String) (w w' : W) (j : String)
      → r.decrby k w ≡ (ok tt, w')
      → entry j w' ≡ (if str_eq j k then decr_entry (entry j w) else entry j w)
