-- ===== src/Service/Delivery/Retries.antt =====
-- handleRetry of internal/service/delivery.go beside GetRetryReady: the service counts failures up
-- to its own maximum, the poll up to the row's max_retries.
use event_driven_notificatio.Prelude.{
  ◌+◌, ◌≤◌, ◌<◌, ◌≡◌, ◌∙◌, ◌⊎◌, inl, inr, true, false, some, none, [], ◌∷◌, ◌++◌, arith,
}
use event_driven_notificatio.Domain.Errors.{Error}
use event_driven_notificatio.Domain.Notification.{Time, Notification, failed}
use event_driven_notificatio.Postgres.Notifications.{find_row, is_retry_ready}
use event_driven_notificatio.Service.World.{
  UuidText, World, Outside, marking_failed, burying, planning_retry,
}
use event_driven_notificatio.Service.Backoff.{next_retry}
use event_driven_notificatio.Service.Delivery.{DeliveryService, handle_retry}
use event_driven_notificatio.Service.Delivery.Charge.{IsCharged, handle_retry-IsCharged, letter_of}

-- The retry poll takes a failed row exactly when it has fewer failures than its maximum and its time
-- has come.
ready_after :
    (t a : Time) (r : Notification)
    → r.status ≡ failed
    → r.retry_count < r.max_retries
    → r.next_retry_at ≡ some a
    → a ≤ t
    → is_retry_ready t r ≡ true
unfolding is_retry_ready
ready_after t a r h k d l = rw (h, d) (ground arith)

never_ready :
    (t : Time) (r : Notification) → r.max_retries ≤ r.retry_count → is_retry_ready t r ≡ false
unfolding is_retry_ready
never_ready t r k = ground arith

module _ (u : UuidText) (s : DeliveryService) (o : Outside) (e : Error) (n r : Notification)
    (w : World) (found : find_row n.id w.rows ≡ some r) (same : r.max_retries ≡ n.max_retries)
    (mark : o.fails marking_failed ≡ none) (bury : o.fails burying ≡ none) where
  -- the row that a charged failure leaves
  charge : IsCharged u s o e n w.dead_letters (handle_retry u s o e n w)
  charge = handle_retry-IsCharged u s o e n r w found same mark bury

  -- When the service's maximum is the row's, a charged failure leaves either a dead letter and a row
  -- that the retry poll never takes, or no dead letter and a row that it takes from its time on.
  pub retry_xor_dead_letter :
      s.max_retries ≡ n.max_retries
      → let w' = handle_retry u s o e n w in
        (row : Notification) × (find_row n.id w'.rows ≡ some row)
        × (((w'.dead_letters ≡ w.dead_letters ++ letter_of u s o e n ∷ [])
              × ((t : Time) → is_retry_ready t row ≡ false))
            ⊎ ((w'.dead_letters ≡ w.dead_letters)
                × ((t : Time)
                    → next_retry s.base_delay s.max_delay o.random
                        (o.clock planning_retry)
                        (n.retry_count + 1)
                      ≤ t
                    → is_retry_ready t row ≡ true)))
  retry_xor_dead_letter h = (
    charge.row,
    charge.found,
    elim charge.outcome [
      | inl (l, d, k) ↦
          inl (d, λ t. never_ready t charge.row (omega (arith, charge.counted, charge.kept)))
      | inr (l, d, k) ↦ inr (
        d,
        λ t a.
            ready_after t _ charge.row charge.is_failed (omega (arith, charge.counted, charge.kept))
              k a,
      )
    ],
  )

  -- When the service's maximum is larger than the row's, a charged failure at or above the row's and
  -- below the service's leaves no dead letter and a row that the retry poll never takes.
  pub larger_maximum_strands :
      n.max_retries ≤ n.retry_count + 1
      → n.retry_count + 1 < s.max_retries
      → let w' = handle_retry u s o e n w in
        (row : Notification) × (find_row n.id w'.rows ≡ some row)
        × (w'.dead_letters ≡ w.dead_letters)
        × ((t : Time) → is_retry_ready t row ≡ false)
  larger_maximum_strands a b = (
    charge.row,
    charge.found,
    elim charge.outcome [ inl (l, d, k) ↦ absurd (omega arith) | inr (l, d, k) ↦ d ],
    λ t. never_ready t charge.row (omega (arith, charge.counted, charge.kept)),
  )

  -- When the service's maximum is smaller than the row's, a charged failure at or above the service's and below the row's, of a
  -- notification that has waited for a retry before, leaves a dead letter and a row that the retry
  -- poll takes again from that earlier time on.
  pub smaller_maximum_repeats :
      (before : Time)
      → s.max_retries ≤ n.retry_count + 1
      → n.retry_count + 1 < n.max_retries
      → n.next_retry_at ≡ some before
      → let w' = handle_retry u s o e n w in
        (row : Notification) × (find_row n.id w'.rows ≡ some row)
        × (w'.dead_letters ≡ w.dead_letters ++ letter_of u s o e n ∷ [])
        × ((t : Time) → before ≤ t → is_retry_ready t row ≡ true)
  smaller_maximum_repeats before a b c = elim charge.outcome [
    | inl (l, d, k) ↦ (
      charge.row,
      charge.found,
      d,
      λ t q.
          ready_after t before charge.row charge.is_failed
            (omega (arith, charge.counted, charge.kept)) (k ∙ c) q,
    )
    | inr (l, d, k) ↦ absurd (omega arith)
  ]
