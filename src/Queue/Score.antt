-- ===== src/Queue/Score.antt =====
-- calcScore of internal/adapter/queue/publisher.go.
use event_driven_notificatio.Prelude.{ℕ, ◌+◌, ◌*◌, ◌^◌, ◌≤◌, ◌<◌, ◌≡◌, ◌↔◌, ◌⊎◌, arith, inl, inr}
use event_driven_notificatio.Queue.{calc_score}

-- For times below 10 ^ 13 milliseconds (the year 2286), scores compare as priority first and time
-- second: a lower priority number wins at any time, and within a priority the earlier wins. With
-- priorities up to 2 the score is below 2 ^ 53, where a float64 is exact.
pub calc_score_order :
    (p t q u : ℕ)
    → t < 10 ^ 13
    → u < 10 ^ 13
    → ((calc_score p t ≤ calc_score q u) ↔ ((p < q) ⊎ ((p ≡ q) × (t ≤ u))))
      × (p ≤ 2 → calc_score p t < 2 ^ 53)
unfolding calc_score
calc_score_order p t q u h k = ((to, from), λ r. omega arith)
  where
    to : p * 10 ^ 13 + t ≤ q * 10 ^ 13 + u → (p < q) ⊎ ((p ≡ q) × (t ≤ u))
    to l = ground arith

    from : (p < q) ⊎ ((p ≡ q) × (t ≤ u)) → p * 10 ^ 13 + t ≤ q * 10 ^ 13 + u
    from (inl a) = omega arith
    from (inr b) = omega arith
