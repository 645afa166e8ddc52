-- ===== src/RateLimit/Keys.antt =====
-- The keys that Limiter.Allow of pkg/ratelimit/limiter.go reads and writes.
use Prim.Native.String.{◌++◌ as append}
use text.Mathlib.TextLemmas.{append_cancel_left}
use event_driven_notificatio.Prelude.{ℕ, String, ◌≡◌, refl, ◌≢◌, Option, none, some, eq_iff, arith}
use event_driven_notificatio.Domain.Errors.{Error}
use event_driven_notificatio.RateLimit.{Limiter, Windows, allow}

-- A check for one channel leaves the window of every other channel as it was, whether the client
-- fails or not.
pub allow-ne_channel :
    (l : Limiter) (failure : Option Error) (now : ℕ) (unique_id c d : String) (keys : Windows)
    → c ≢ d
    → (allow l failure now unique_id c keys).1 (append "ratelimit:" d)
      ≡ keys (append "ratelimit:" d)
unfolding allow
allow-ne_channel l none now unique_id c d keys h = ground (
  arith,
  eq_iff (append "ratelimit:" d) (append "ratelimit:" c),
  append_cancel_left "ratelimit:" d c,
)
allow-ne_channel l (some e) now unique_id c d keys h = refl
