-- ===== src/Breaker/HalfOpen.antt =====
-- A half-open breaker that has handed out all of its trials.
use event_driven_notificatio.Prelude.{ℕ, ◌≤◌, ◌≡◌, refl, ap, ◌∙◌, false, List, [], ◌∷◌, map, arith}
use event_driven_notificatio.Breaker.{CircuitBreaker, half_open, allow, allows, step, run}

step-allows_spent :
    (cb : CircuitBreaker) (t : ℕ)
    → cb.state ≡ half_open
    → cb.half_open_max ≤ cb.half_open_count
    → step cb (allows t) ≡ cb
unfolding step
step-allows_spent cb t e h = ground arith

run-allows_spent :
    (cb : CircuitBreaker) (ts : List ℕ)
    → cb.state ≡ half_open
    → cb.half_open_max ≤ cb.half_open_count
    → run cb (map allows ts) ≡ cb
unfolding run
run-allows_spent cb [] e h = refl
run-allows_spent cb (t ∷ ts) e h =
    ap (λ c. run c (map allows ts)) (step-allows_spent cb t e h) ∙ run-allows_spent cb ts e h

-- A half-open breaker that has handed out all of its trials refuses every further request, at any
-- time however late, and the refusals change nothing: only a recorded result can move it.
pub spent_refuses_forever :
    (cb : CircuitBreaker) (ts : List ℕ) (now : ℕ)
    → cb.state ≡ half_open
    → cb.half_open_max ≤ cb.half_open_count
    → (run cb (map allows ts) ≡ cb) × ((allow now (run cb (map allows ts))).1 ≡ false)
unfolding allow
spent_refuses_forever cb ts now e h =
    let same = run-allows_spent cb ts e h in (same, rw same (ground arith))
