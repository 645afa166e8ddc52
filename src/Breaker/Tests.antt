-- ===== src/Breaker/Tests.antt =====
-- The breaker of internal/service/delivery.go, `circuitbreaker.New(5, 3, 3, 30*time.Second)`, at
-- concrete calls, and the theorems at inputs that meet their hypotheses.
use event_driven_notificatio.Prelude.{
  ◌+◌, ◌<◌, ◌≡◌, ◌↔◌, ◌⊎◌, refl, true, false, List, [], ◌∷◌, arith, replicate,
}
use event_driven_notificatio.Breaker.{
  CircuitBreaker, closed, opened, half_open, new, allow, allows, succeeds, fails, Call, step, run,
}
use event_driven_notificatio.Breaker.Invariant.{IsBounded, run-new-IsBounded}
use event_driven_notificatio.Breaker.Recovery.{allow_iff, opened_blocks, recovers}

history : List Call
history = fails 1 ∷ succeeds ∷ fails 2 ∷ fails 3 ∷ fails 4 ∷ fails 5 ∷ fails 6 ∷ allows 40 ∷ []

run-history : ((run (new 5 3 3 30) history).state ≡ half_open)
unfolding new run step history
run-history = refl

run-new-IsBounded_example : IsBounded (run (new 5 3 3 30) history)
run-new-IsBounded_example =
    run-new-IsBounded 5 3 3 30 history (omega arith) (omega arith) (omega arith)

abbrev half : CircuitBreaker
half = record {
  state = half_open;
  failure_count = 5;
  success_count = 2;
  failure_threshold = 5;
  success_threshold = 3;
  reset_timeout = 30;
  half_open_max = 3;
  half_open_count = 3;
  last_failure = 5;
}

abbrev shut : CircuitBreaker
shut = record half { state = opened; success_count = 0; half_open_count = 0 }

abbrev fresh : CircuitBreaker
fresh = record shut { state = closed; failure_count = 0; last_failure = 0 }

opened_blocks_example :
    ((run shut (allows 9 ∷ fails 10 ∷ succeeds ∷ [])).state ≡ opened)
    × ((allow 35 (run shut (allows 9 ∷ fails 10 ∷ succeeds ∷ []))).1 ≡ false)
opened_blocks_example =
    opened_blocks shut (allows 9 ∷ fails 10 ∷ succeeds ∷ []) 35 refl (omega arith) (omega arith)

recovers_example :
    let cb' = run shut (allows 36 ∷ replicate 3 succeeds) in
    (cb'.state ≡ closed) × (cb'.failure_count ≡ 0) × (cb'.success_count ≡ 0)
recovers_example = recovers 2 36 shut refl (omega arith) refl

allow_iff_example :
    (((allow 36 shut).1 ≡ true) ↔ (
      (shut.state ≡ closed)
      ⊎ (((shut.state ≡ opened) × (5 + 30 < 36)) ⊎ ((shut.state ≡ half_open) × (0 < 3)))))
    × ((allow 36 shut).1 ≡ false → (allow 36 shut).0 ≡ shut)
allow_iff_example = allow_iff 36 shut
