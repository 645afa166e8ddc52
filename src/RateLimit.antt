-- ===== src/RateLimit.antt =====
-- pkg/ratelimit/limiter.go: the sliding-window script on a Redis sorted set, and the method that
-- runs it. A sorted set is a list of members with scores in milliseconds; the script reads no
-- order. A key that has expired reads as missing. Redis' clock and the callers' are one clock.
pub mod History
pub mod Tracks
pub mod Bound
pub mod Keys
mod Tests
use Prim.Native.String.{◌++◌ as append}
use event_driven_notificatio.Prelude.{
  ℕ, ◌+◌, String, Bool, true, false, not, Option, none, some, List, [], ◌∷◌, ◌++◌, length, filterb,
  ltb, leb, str_eq, if◌then◌else◌,
}
use event_driven_notificatio.Domain.Errors.{Error, Result, ok, err, wrapped}

-- The sorted set under one key, and the time at which the key expires.
pub record Window : Type 0 where
  pub members : List (String × ℕ)
  pub expires_at : Option ℕ

abbrev pub empty : Window
empty = record { members = []; expires_at = none }

expired : Option ℕ → ℕ → Bool
expired none now = false
expired (some e) now = ltb e now

-- What the script finds under the key.
pub current : ℕ → Window → List (String × ℕ)
unfolding expired
current now w = if expired w.expires_at now then [] else w.members

-- ZREMRANGEBYSCORE key 0 (now - window)
pub purge : ℕ → ℕ → List (String × ℕ) → List (String × ℕ)
purge window now = filterb (λ e. not (leb (e.1 + window) now))

-- ZADD key now unique_id
pub zadd : String → ℕ → List (String × ℕ) → List (String × ℕ)
zadd unique_id now z = filterb (λ e. not (str_eq e.0 unique_id)) z ++ (unique_id, now) ∷ []

-- slidingWindowScript: whether it returned 1, and the key afterwards.
unfoldable pub sliding_window_script : ℕ → ℕ → ℕ → String → Window → Bool × Window
unfolding current purge zadd
sliding_window_script limit window now unique_id w =
    let z = purge window now (current now w) in
    if ltb (length z) limit
    then (true, record { members = zadd unique_id now z; expires_at = some (now + window) })
    else (
      false,
      record { members = z; expires_at = if expired w.expires_at now then none else w.expires_at },
    )

pub record Limiter : Type 0 where
  pub limit_per_sec : ℕ
  pub window_ms : ℕ

-- NewLimiter
unfoldable pub new_limiter : ℕ → Limiter
new_limiter limit_per_sec = record { limit_per_sec = limit_per_sec; window_ms = 1000 }

-- The keys of Redis that hold windows.
abbrev pub Windows : Type 0
Windows = String → Window

-- Limiter.Allow: the error that the client returns, if any, the time in milliseconds and the new
-- UUID are arguments.
unfoldable pub allow :
    Limiter → Option Error → ℕ → String → String → Windows → Result Bool × Windows
unfolding sliding_window_script
allow l failure now unique_id channel keys =
    let key = append "ratelimit:" channel in
    let (granted, w) = sliding_window_script l.limit_per_sec l.window_ms now unique_id (keys key) in
    elim failure [
      | some e ↦ (err (wrapped "rate limit script: " e ""), keys)
      | none ↦ (ok granted, λ k. if str_eq k key then w else keys k)
    ]
