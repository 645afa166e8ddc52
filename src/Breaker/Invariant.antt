-- ===== src/Breaker/Invariant.antt =====
-- Bounds on the counters of a breaker, over every sequence of calls.
use event_driven_notificatio.Prelude.{ℕ, ◌≤◌, ◌<◌, ◌≡◌, List, [], ◌∷◌, arith}
use event_driven_notificatio.Breaker.{CircuitBreaker, closed, half_open, new, Call, step, run}

pub record IsBounded (cb : CircuitBreaker) : Type 0 where
  pub failures : cb.failure_count ≤ cb.failure_threshold
  pub failures_closed : cb.state ≡ closed → cb.failure_count < cb.failure_threshold
  pub trials : cb.half_open_count ≤ cb.half_open_max
  pub successes_half_open : cb.state ≡ half_open → cb.success_count < cb.success_threshold
  pub successes : cb.success_count ≤ cb.success_threshold
  pub room : 0 < cb.half_open_max
  pub failure_room : 0 < cb.failure_threshold
  pub success_room : 0 < cb.success_threshold

pub new-IsBounded : (f s h t : ℕ) → 0 < f → 0 < s → 0 < h → IsBounded (new f s h t)
unfolding new
new-IsBounded f s h t pf ps ph = ground arith

pub step-IsBounded : (cb : CircuitBreaker) (c : Call) → IsBounded cb → IsBounded (step cb c)
unfolding step
step-IsBounded cb c v = ground arith

pub run-IsBounded : (cb : CircuitBreaker) (cs : List Call) → IsBounded cb → IsBounded (run cb cs)
unfolding run
run-IsBounded cb [] v = v
run-IsBounded cb (c ∷ cs) v = run-IsBounded (step cb c) cs (step-IsBounded cb c v)

-- With positive settings, whatever calls are made in whatever order, the failure counter stays at
-- most its threshold, and below it while the breaker is closed; the success counter stays at most
-- its threshold, and below it while the breaker is half open; and the trial counter stays at most
-- its maximum.
pub run-new-IsBounded :
    (f s h t : ℕ) (cs : List Call) → 0 < f → 0 < s → 0 < h → IsBounded (run (new f s h t) cs)
run-new-IsBounded f s h t cs pf ps ph = run-IsBounded _ cs (new-IsBounded f s h t pf ps ph)
