-- ===== src/Breaker/Recovery.antt =====
-- When a breaker lets a request through, when it opens, and when it closes again.
use event_driven_notificatio.Prelude.{
  ℕ, zero, suc, ◌+◌, ◌≤◌, ◌<◌, ◌≡◌, refl, ◌↔◌, ◌⊎◌, true, false, List, [], ◌∷◌, map, length, All,
  replicate, arith,
}
use event_driven_notificatio.Breaker.{
  CircuitBreaker, closed, opened, half_open, allow, Call, allows, fails, succeeds, step, run,
}

-- A call of Allow lets the request through exactly in these cases: the breaker is closed, or it is
-- open and its reset timeout has passed since the last failure, or it is half open and fewer than
-- the maximum of trials were let through. A refusal changes nothing.
pub allow_iff :
    (now : ℕ) (cb : CircuitBreaker)
    → (((allow now cb).1 ≡ true) ↔ (
        (cb.state ≡ closed)
        ⊎ (((cb.state ≡ opened) × (cb.last_failure + cb.reset_timeout < now))
            ⊎ ((cb.state ≡ half_open) × (cb.half_open_count < cb.half_open_max)))))
      × ((allow now cb).1 ≡ false → (allow now cb).0 ≡ cb)
unfolding allow
allow_iff now cb = ground arith

opened_by-fails :
    (cb : CircuitBreaker) (ts : List ℕ) → cb.state ≡ opened → (run cb (map fails ts)).state ≡ opened
unfolding run step
opened_by-fails cb [] e = e
opened_by-fails cb (t ∷ ts) e = opened_by-fails (step cb (fails t)) ts (ground arith)

-- A closed breaker that records failures and no success stays closed while its failure counter
-- stays below the threshold, and is open from the failure on that reaches the threshold.
pub trips_at_threshold :
    (cb : CircuitBreaker) (ts : List ℕ)
    → cb.state ≡ closed
    → cb.failure_count < cb.failure_threshold
    → (cb.failure_count + length ts < cb.failure_threshold → (run cb (map fails ts)).state ≡ closed)
      × (cb.failure_threshold ≤ cb.failure_count + length ts
          → (run cb (map fails ts)).state ≡ opened)
unfolding run step
trips_at_threshold cb [] e h = (λ p. e, λ p. absurd (omega arith))
trips_at_threshold cb (t ∷ ts) e h =
    let cb' = step cb (fails t) in ground (arith, trips_at_threshold cb' ts, opened_by-fails cb' ts)

-- A call before the end of the timeout that began at `from`: an Allow at a time up to the end, a
-- recorded success, or a failure recorded since.
abbrev pub Early : ℕ → ℕ → Call → Type 0
Early from timeout (allows now) = now ≤ from + timeout
Early from timeout succeeds = Unit
Early from timeout (fails now) = from ≤ now

module _ (from timeout : ℕ) where
  -- what such calls keep
  abbrev IsWaiting : CircuitBreaker → Type 0
  IsWaiting cb = (cb.state ≡ opened) × (from ≤ cb.last_failure) × (cb.reset_timeout ≡ timeout)

  step-IsWaiting :
      (cb : CircuitBreaker) (c : Call) → IsWaiting cb → Early from timeout c → IsWaiting (step cb c)
  unfolding step
  step-IsWaiting cb c w p = ground arith

  run-IsWaiting :
      (cb : CircuitBreaker) (cs : List Call)
      → IsWaiting cb
      → All (Early from timeout) cs
      → IsWaiting (run cb cs)
  unfolding run
  run-IsWaiting cb [] w p = w
  run-IsWaiting cb (c ∷ cs) w p = run-IsWaiting (step cb c) cs (step-IsWaiting cb c w p.0) p.1

-- While the reset timeout of an open breaker runs, no request passes: after any calls made in that
-- time (refused requests, successes, and failures that come later than the one that opened it) an
-- Allow up to the end of the timeout is refused and the breaker is still open.
pub opened_blocks :
    (cb : CircuitBreaker) (cs : List Call) (now : ℕ)
    → cb.state ≡ opened
    → All (Early cb.last_failure cb.reset_timeout) cs
    → now ≤ cb.last_failure + cb.reset_timeout
    → ((run cb cs).state ≡ opened) × ((allow now (run cb cs)).1 ≡ false)
unfolding allow
opened_blocks cb cs now e p h =
    let w = run-IsWaiting cb.last_failure cb.reset_timeout cb cs (e, omega arith, refl) p in
    ground arith

close-succeeds :
    (k : ℕ) (cb : CircuitBreaker)
    → cb.state ≡ half_open
    → cb.success_count + suc k ≡ cb.success_threshold
    → let cb' = run cb (replicate (suc k) succeeds) in
      (cb'.state ≡ closed) × (cb'.failure_count ≡ 0) × (cb'.success_count ≡ 0)
unfolding run step
close-succeeds zero cb e h = ground arith
close-succeeds (suc k) cb e h =
    ground (arith, close-succeeds k (record cb { success_count = cb.success_count + 1 }))

-- An open breaker whose reset timeout has passed recovers: after one Allow and as many successes
-- as the success threshold it is closed, with both counters at zero.
pub recovers :
    (k now : ℕ) (cb : CircuitBreaker)
    → cb.state ≡ opened
    → cb.last_failure + cb.reset_timeout < now
    → cb.success_threshold ≡ suc k
    → let cb' = run cb (allows now ∷ replicate cb.success_threshold succeeds) in
      (cb'.state ≡ closed) × (cb'.failure_count ≡ 0) × (cb'.success_count ≡ 0)
unfolding run step
recovers k now cb e h s = rw s (
    ground (
      arith,
      close-succeeds k (record cb { state = half_open; half_open_count = 1; success_count = 0 }),
    ))

-- A failure recorded while the breaker is half open opens it again, and the timeout starts at that
-- failure: the next request is let through exactly when the timeout has passed since.
pub half_open-fails :
    (cb : CircuitBreaker) (now later : ℕ)
    → cb.state ≡ half_open
    → ((step cb (fails now)).state ≡ opened)
      × (((allow later (step cb (fails now))).1 ≡ true) ↔ (now + cb.reset_timeout < later))
unfolding step
half_open-fails cb now later e = ground arith
