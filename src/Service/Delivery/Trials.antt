-- ===== src/Service/Delivery/Trials.antt =====
-- Process of internal/service/delivery.go and the trials of a half-open breaker: a notification that
-- the limiter stops has used a trial and records no result.
use text.Mathlib.TextPositions.{eq_refl}
use event_driven_notificatio.Prelude.{
  ℕ, ◌+◌, String, ◌≡◌, refl, ◌⊎◌, inl, inr, true, Bool, false, some, arith,
}
use event_driven_notificatio.Domain.Errors.{Error, ok, err, Result}
use event_driven_notificatio.Domain.Notification.{Notification}
use event_driven_notificatio.Breaker.{CircuitBreaker, half_open, allow as breaker_allow}
use event_driven_notificatio.Service.World.{
  UuidText, World, Outside, SendRequest, Reply, asking_breaker,
}
use event_driven_notificatio.Service.Delivery.{
  DeliveryService, process, limited, put_back, save, put_breaker,
}
use event_driven_notificatio.Service.Delivery.Outcomes.{
  IsOpen, limiter_answer, asked, at_limiter, process_limited,
}

-- The last trial leaves a breaker that refuses.
last_trial :
    (cb : CircuitBreaker) (t now : ℕ)
    → cb.state ≡ half_open
    → cb.half_open_count + 1 ≡ cb.half_open_max
    → ((breaker_allow t cb).1 ≡ true) × ((breaker_allow now (breaker_allow t cb).0).1 ≡ false)
unfolding breaker_allow
last_trial cb t now h k = (rw h (ground arith), rw h (ground arith))

module _ (u : UuidText) (s : DeliveryService) (provider : SendRequest → Reply) (o : Outside)
    (text : String) (n : Notification) (cb : CircuitBreaker) (w : World) where
  -- When an open notification takes the last trial of a half-open breaker and the limiter refuses it
  -- or fails, the breaker that Process leaves refuses every request, at any time.
  pub limiter_spends_last_trial :
      IsOpen u o text n cb w
      → cb.state ≡ half_open
      → cb.half_open_count + 1 ≡ cb.half_open_max
      → (limiter_answer s o n w ≡ ok false) ⊎ ((e : Error) × (limiter_answer s o n w ≡ err e))
      → (after : CircuitBreaker) × ((process u s provider o text w).1.breakers n.channel
          ≡ some after)
        × ((now : ℕ) → (breaker_allow now after).1 ≡ false)
  unfolding limited put_back save at_limiter put_breaker
  limiter_spends_last_trial h c k l =
      let trial = λ (t : ℕ). last_trial cb (o.clock asking_breaker) t c k in
      let through =
        λ (reply : Result Bool). process_limited u s provider o text n cb w h (trial 0).0 reply in
      (
        (asked o cb).0,
        elim l [
          | inl e ↦ rw (through (ok false) e) (rw (eq_refl n.channel) refl)
          | inr (x, e) ↦ rw (through (err x) e) (rw (eq_refl n.channel) refl)
        ],
        λ t. (trial t).1,
      )
