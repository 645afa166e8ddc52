-- ===== src/Cache.antt =====
-- internal/adapter/cache/redis.go, on the keys of Redis with the times at which they expire. No service
-- uses the cache.
pub mod Locks
mod Tests
use event_driven_notificatio.Prelude.{
  ℕ, zero, suc, ◌+◌, String, Bool, true, false, not, Option, none, some, is_some, leb, str_eq,
  if◌then◌else◌,
}
use event_driven_notificatio.Domain.Errors.{Error, Result, ok, err}

-- A value, and when it expires.
abbrev pub Keys : Type 0
Keys = String → Option (String × Option ℕ)

abbrev pub unless_expired : ℕ → String → Option ℕ → Option String
unless_expired now v none = some v
unless_expired now v (some at) = if leb at now then none else some v

-- The value of an entry that has not expired.
abbrev pub live_value : ℕ → Option (String × Option ℕ) → Option String
live_value now none = none
live_value now (some (v, at)) = unless_expired now v at

-- A TTL of 0 is none.
abbrev pub expiry : ℕ → ℕ → Option ℕ
expiry now zero = none
expiry now (suc n) = some (now + suc n)

abbrev pub write_key : String → Option (String × Option ℕ) → Keys → Keys
write_key key v keys k = if str_eq k key then v else keys k

abbrev pub or_empty_text : Option String → String
or_empty_text none = ""
or_empty_text (some v) = v

-- Get: a missing key is the empty text.
unfoldable pub get : Option Error → ℕ → String → Keys → Result String
get (some e) now key keys = err e
get none now key keys = ok (or_empty_text (live_value now (keys key)))

-- Set
unfoldable pub set : Option Error → ℕ → String → String → ℕ → Keys → Result (Unit {0}) × Keys
set (some e) now key value ttl keys = (err e, keys)
set none now key value ttl keys = (ok tt, write_key key (some (value, expiry now ttl)) keys)

-- SetNX
unfoldable pub set_nx : Option Error → ℕ → String → String → ℕ → Keys → Result Bool × Keys
set_nx (some e) now key value ttl keys = (err e, keys)
set_nx none now key value ttl keys =
    if is_some (live_value now (keys key))
    then (ok false, keys)
    else (ok true, write_key key (some (value, expiry now ttl)) keys)

-- Delete
unfoldable pub delete : Option Error → String → Keys → Result (Unit {0}) × Keys
delete (some e) key keys = (err e, keys)
delete none key keys = (ok tt, write_key key none keys)

-- Exists
unfoldable pub exists : Option Error → ℕ → String → Keys → Result Bool
exists (some e) now key keys = err e
exists none now key keys = ok (is_some (live_value now (keys key)))
