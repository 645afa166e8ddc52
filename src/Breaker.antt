-- ===== src/Breaker.antt =====
-- pkg/circuitbreaker/breaker.go. Each method holds the mutex to its end, so it is one function
-- from the breaker to the breaker; `time.Now()` is an argument. The counters are Go `int`s: they
-- are plain numbers here, and the bounds below show that they never pass the thresholds.
pub mod Invariant
pub mod Recovery
pub mod HalfOpen
mod Tests
use event_driven_notificatio.Prelude.{
  ℕ, ◌+◌, String, Bool, true, false, List, [], ◌∷◌, ltb, leb, if◌then◌else◌,
}

pub data State : Type 0 where
  closed opened half_open : State

unfoldable pub state_string : State → String
state_string closed = "closed"
state_string opened = "open"
state_string half_open = "half_open"

pub record CircuitBreaker : Type 0 where
  pub state : State
  pub failure_count : ℕ
  pub success_count : ℕ
  pub failure_threshold : ℕ
  pub success_threshold : ℕ
  pub reset_timeout : ℕ
  pub half_open_max : ℕ
  pub half_open_count : ℕ
  pub last_failure : ℕ

-- New; `lastFailure` is the zero time.
unfoldable pub new : ℕ → ℕ → ℕ → ℕ → CircuitBreaker
new failure_threshold success_threshold half_open_max reset_timeout = record {
  state = closed;
  failure_count = 0;
  success_count = 0;
  failure_threshold = failure_threshold;
  success_threshold = success_threshold;
  reset_timeout = reset_timeout;
  half_open_max = half_open_max;
  half_open_count = 0;
  last_failure = 0;
}

-- The `switch` of Allow. `time.Since(lastFailure) > resetTimeout` is written without the
-- subtraction.
allow_in : State → ℕ → CircuitBreaker → CircuitBreaker × Bool
allow_in closed now cb = (cb, true)
allow_in opened now cb =
    if ltb (cb.last_failure + cb.reset_timeout) now
    then (record cb { state = half_open; half_open_count = 1; success_count = 0 }, true)
    else (cb, false)
allow_in half_open now cb =
    if ltb cb.half_open_count cb.half_open_max
    then (record cb { half_open_count = cb.half_open_count + 1 }, true)
    else (cb, false)

unfoldable pub allow : ℕ → CircuitBreaker → CircuitBreaker × Bool
unfolding allow_in
allow now cb = allow_in cb.state now cb

record_success_in : State → CircuitBreaker → CircuitBreaker
record_success_in closed cb = record cb { failure_count = 0 }
record_success_in opened cb = cb
record_success_in half_open cb =
    if leb cb.success_threshold (cb.success_count + 1)
    then record cb { state = closed; failure_count = 0; success_count = 0 }
    else record cb { success_count = cb.success_count + 1 }

unfoldable pub record_success : CircuitBreaker → CircuitBreaker
unfolding record_success_in
record_success cb = record_success_in cb.state cb

record_failure_in : State → CircuitBreaker → CircuitBreaker
record_failure_in closed cb =
    if leb cb.failure_threshold (cb.failure_count + 1)
    then record cb { failure_count = cb.failure_count + 1; state = opened }
    else record cb { failure_count = cb.failure_count + 1 }
record_failure_in opened cb = cb
record_failure_in half_open cb = record cb { state = opened; half_open_count = 0 }

unfoldable pub record_failure : ℕ → CircuitBreaker → CircuitBreaker
unfolding record_failure_in
record_failure now cb = record_failure_in cb.state (record cb { last_failure = now })

-- Counts
unfoldable pub counts : CircuitBreaker → ℕ × ℕ
counts cb = (cb.failure_count, cb.success_count)

-- The calls that workers make on one breaker, in the order in which they get the mutex.
pub data Call : Type 0 where
  allows : ℕ → Call
  succeeds : Call
  fails : ℕ → Call

unfoldable pub step : CircuitBreaker → Call → CircuitBreaker
unfolding allow record_success record_failure
step cb (allows now) = (allow now cb).0
step cb succeeds = record_success cb
step cb (fails now) = record_failure now cb

unfoldable pub run : CircuitBreaker → List Call → CircuitBreaker
run cb [] = cb
run cb (c ∷ cs) = run (step cb c) cs
