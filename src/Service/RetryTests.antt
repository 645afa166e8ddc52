-- ===== src/Service/RetryTests.antt =====
-- The theorems on retries, trials, cancels and polls of internal/service at inputs that meet their
-- hypotheses.
use event_driven_notificatio.Postgres.Notifications.{get_scheduled_ready, get_retry_ready}
use event_driven_notificatio.Prelude.{
  min, ℕ, ◌+◌, ◌*◌, ◌^◌, ◌≤◌, ◌⊎◌, inl, ◌≡◌, refl, true, false, none, some, [], ◌∷◌, arith, All,
}
use event_driven_notificatio.Domain.Errors.{foreign, ok}
use event_driven_notificatio.Domain.Notification.{
  is_valid, Time, Notification, is_final, processing, scheduled, can_cancel,
}
use event_driven_notificatio.Breaker.{CircuitBreaker, half_open, new, allow as breaker_allow}
use event_driven_notificatio.RateLimit.{allow as limiter_allow, sliding_window_script}
use event_driven_notificatio.Queue.Batch.{Waits}
use event_driven_notificatio.Postgres.Notifications.{
  Rows, find_row, is_retry_ready, cancel_by_id, update,
}
use event_driven_notificatio.Postgres.Notifications.Table.{IsTable}
use event_driven_notificatio.Postgres.Notifications.Pollers.{IsScheduledClaim, IsRetryClaim}
use event_driven_notificatio.Service.World.{World}
use event_driven_notificatio.Service.Backoff.{next_retry, next_retry_bounds, IsNear, scale}
use event_driven_notificatio.Prelude.Float.{round_float}
use event_driven_notificatio.Service.Delivery.{process, handle_retry}
use event_driven_notificatio.Service.Delivery.Charge.{letter_of}
use event_driven_notificatio.Service.Delivery.Outcomes.{IsOpen}
use event_driven_notificatio.Service.Delivery.Retries.{
  retry_xor_dead_letter, larger_maximum_strands,
}
use event_driven_notificatio.Service.Delivery.Trials.{limiter_spends_last_trial}
use event_driven_notificatio.Service.Delivery.Cancelling.{
  cancel_stops_delivery, update_undoes_cancel,
}
use event_driven_notificatio.Service.Scheduler.{
  PollOutside, queue_message, scheduler_poll, retry_poll,
}
use event_driven_notificatio.Service.Scheduler.Handover.{
  IsStranded, polls_hand_over, failed_polls_strand,
}
use event_driven_notificatio.Service.Tests.{
  texts, outside, waiting, world, world-IsTable, service, shut, takes,
}

-- Halves go to the even neighbour.
rounds_down : round_float (2 ^ 53 + 1) ≡ 2 ^ 53
unfolding round_float
rounds_down = refl

rounds_up : round_float (2 ^ 53 + 3) ≡ 2 ^ 53 + 4
unfolding round_float
rounds_up = refl

-- A delay that float64 does not hold: 101 nanoseconds below 80%, where exact arithmetic is not.
scaled_least : scale 0 (2 ^ 61 + 255) ≡ 1844674407370955264
unfolding scale
scaled_least = refl

scaled_between : scale 6004799503160661 123456789123456789 ≡ 131687241731687232
unfolding scale
scaled_between = refl

-- The third retry, 2 seconds after the epoch, of a base of one second: 0.8 * 4 seconds later.
next_retry_bounds_example :
    IsNear 2000000000
      (min (10 ^ 9 * 2 ^ 2) (30 * 10 ^ 9))
      (next_retry (10 ^ 9) (30 * 10 ^ 9) 0 2000000000 3)
next_retry_bounds_example =
    next_retry_bounds (10 ^ 9) (30 * 10 ^ 9) 0 2000000000 3 (omega arith) (omega arith)
      (omega arith) (omega arith)

-- A breaker on its last trial.
abbrev on_trial : CircuitBreaker
unfolding new
on_trial = record (new 5 3 3 (30 * 10 ^ 9)) { state = half_open; half_open_count = 2 }

abbrev with_breaker : CircuitBreaker → World
with_breaker cb = record world { breakers = λ c. some cb }

guarded-IsOpen : (cb : CircuitBreaker) → IsOpen texts outside "xxxx" waiting cb (with_breaker cb)
unfolding find_row is_final
guarded-IsOpen cb = record {
  parses = refl;
  found = refl;
  not_final = refl;
  guard = refl;
  loads = refl;
  marks = refl;
}

limiter_spends_last_trial_example :
    let w = with_breaker on_trial in
    (after : CircuitBreaker) × ((process texts shut takes outside "xxxx" w).1.breakers "sms"
      ≡ some after)
    × ((now : ℕ) → (breaker_allow now after).1 ≡ false)
unfolding on_trial
limiter_spends_last_trial_example =
    limiter_spends_last_trial texts shut takes outside "xxxx" waiting on_trial
      (with_breaker on_trial) (guarded-IsOpen on_trial) refl (unfold new in refl)
      (inl (unfold limiter_allow sliding_window_script in refl))

abbrev twice_failed : Notification
twice_failed = record waiting { retry_count = 2; next_retry_at = some 900 }

abbrev failing : World
failing = record world { rows = twice_failed ∷ [] }

failing-found : find_row 3 failing.rows ≡ some twice_failed
unfolding find_row
failing-found = refl

retry_xor_dead_letter_example :
    let w' = handle_retry texts service outside (foreign "timeout") twice_failed failing in
    (row : Notification) × (find_row 3 w'.rows ≡ some row)
    × (((w'.dead_letters ≡ letter_of texts service outside (foreign "timeout") twice_failed ∷ [])
          × ((t : Time) → is_retry_ready t row ≡ false))
        ⊎ ((w'.dead_letters ≡ [])
            × ((t : Time)
                → next_retry (10 ^ 9) (30 * 10 ^ 9) 0 2000000000 3 ≤ t
                → is_retry_ready t row ≡ true)))
retry_xor_dead_letter_example =
    retry_xor_dead_letter texts service outside (foreign "timeout") twice_failed twice_failed
      failing failing-found refl refl refl refl

larger_maximum_strands_example :
    let w' =
      handle_retry texts
        (record service { max_retries = 5 })
        outside
        (foreign "timeout")
        twice_failed
        failing in
    (row : Notification) × (find_row 3 w'.rows ≡ some row)
    × (w'.dead_letters ≡ [])
    × ((t : Time) → is_retry_ready t row ≡ false)
larger_maximum_strands_example =
    larger_maximum_strands texts (record service { max_retries = 5 }) outside (foreign "timeout")
      twice_failed twice_failed failing failing-found refl refl refl (omega arith) (omega arith)

abbrev once_failed : Notification
once_failed = record waiting { retry_count = 1; next_retry_at = some 900 }

cancel_stops_delivery_example :
    let w' = record world { rows = (cancel_by_id none none 50 3 world.rows).1 } in
    process texts service takes outside "xxxx" w' ≡ (ok tt, w')
cancel_stops_delivery_example =
    cancel_stops_delivery texts service takes outside "xxxx" 3 50 world world-IsTable refl refl
      (unfold cancel_by_id in refl)

update_undoes_cancel_example :
    let (reply, rows') = cancel_by_id none none 50 3 world.rows in
    let (saved, n', rows'') = update none 51 (record waiting { status = processing }) rows' in
    (reply ≡ ok tt)
    × (saved ≡ ok tt)
    × ((r : Notification) × (find_row 3 rows'' ≡ some r) × (r.status ≡ processing))
update_undoes_cancel_example =
    update_undoes_cancel waiting 50 51 world.rows world-IsTable (unfold find_row in refl)
      (unfold can_cancel in refl)

abbrev planned : Rows
planned = record waiting { status = scheduled; scheduled_at = some 40 } ∷ []

planned-IsTable : IsTable planned
unfolding is_valid
planned-IsTable = ground arith

abbrev poll_outside : PollOutside
poll_outside = record {
  query_fails = none;
  locked = λ id. false;
  now = 60;
  pipeline_fails = none;
  clock_ms = λ i. i;
}

abbrev redis_down : PollOutside
redis_down = record poll_outside { pipeline_fails = some (foreign "connection refused", 0) }

polls_hand_over_example :
    (let (rows', q') = scheduler_poll texts poll_outside planned world.queues in
      (found : Rows) × ((get_scheduled_ready none (λ id. false) 60 100 planned).0 ≡ ok found)
      × IsScheduledClaim (λ id. false) 100 60 planned found rows'
      × All (λ n. Waits q' (queue_message texts n)) found)
    × (let (rows', q') = retry_poll texts poll_outside planned world.queues in
        (found : Rows) × ((get_retry_ready none (λ id. false) 60 100 planned).0 ≡ ok found)
        × IsRetryClaim (λ id. false) 100 60 planned found rows'
        × All (λ n. Waits q' (queue_message texts n)) found)
polls_hand_over_example =
    polls_hand_over texts poll_outside world.queues planned planned-IsTable refl refl

failed_polls_strand_example :
    (let (rows', q') = scheduler_poll texts redis_down planned world.queues in
      (found : Rows) × ((get_scheduled_ready none (λ id. false) 60 100 planned).0 ≡ ok found)
      × IsScheduledClaim (λ id. false) 100 60 planned found rows'
      × (q' ≡ world.queues)
      × IsStranded found rows' (λ id. false) 70 100)
    × (let (rows', q') = retry_poll texts redis_down planned world.queues in
        (found : Rows) × ((get_retry_ready none (λ id. false) 60 100 planned).0 ≡ ok found)
        × IsRetryClaim (λ id. false) 100 60 planned found rows'
        × (q' ≡ world.queues)
        × IsStranded found rows' (λ id. false) 70 100)
failed_polls_strand_example =
    failed_polls_strand texts redis_down world.queues (foreign "connection refused") planned
      (λ id. false) 70 100 planned-IsTable refl refl
