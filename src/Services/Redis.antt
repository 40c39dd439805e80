-- ===== src/Services/Redis.antt =====
-- What the services use of Redis, through src/storage/redisconnector.cpp: keys with a time to live,
-- in seconds. Redis itself is a parameter, with what its documentation says of SETEX, GET and TTL.
use ape_server.Prelude.{ℕ, ◌+◌, ◌-◌, ◌≤◌, ◌<◌, ◌≡◌, false, Option, none, some, Bytes, bytes_eq}

-- Each call is given the time at which Redis runs it; `ttl` is none where Redis answers a negative
-- number.
pub record Redis : Type 1 where
  pub Store : Type 0
  pub empty : Store
  pub setex : ℕ → Bytes → ℕ → Bytes → Store → Store
  pub get : ℕ → Bytes → Store → Option Bytes
  pub ttl : ℕ → Bytes → Store → Option ℕ

-- A value is there until its time to live is over, and then no more; SETEX changes no other key.
pub record Lawful (r : Redis) : Type 0 where
  pub get-empty : (at : ℕ) (key : Bytes) → r.get at key r.empty ≡ none
  pub get-setex :
      (at later seconds : ℕ) (key value : Bytes) (s : r.Store)
      → at ≤ later
      → later < at + seconds
      → r.get later key (r.setex at key seconds value s) ≡ some value
  pub ttl-setex :
      (at later seconds : ℕ) (key value : Bytes) (s : r.Store)
      → at ≤ later
      → later < at + seconds
      → r.ttl later key (r.setex at key seconds value s) ≡ some (at + seconds - later)
  pub get_only :
      (at later seconds : ℕ) (key value found : Bytes) (s : r.Store)
      → r.get later key (r.setex at key seconds value s) ≡ some found
      → (found ≡ value) × (later < at + seconds)
  pub get_other :
      (at later seconds : ℕ) (key value other : Bytes) (s : r.Store)
      → bytes_eq key other ≡ false
      → r.get later other (r.setex at key seconds value s) ≡ r.get later other s
  pub ttl_other :
      (at later seconds : ℕ) (key value other : Bytes) (s : r.Store)
      → bytes_eq key other ≡ false
      → r.ttl later other (r.setex at key seconds value s) ≡ r.ttl later other s
