-- ===== src/Service/Delivery/Outcomes.antt =====
-- What Process of internal/service/delivery.go does with an open notification, on each way through
-- it: delivered, failed, refused by the breaker, put back by the limiter.
use text.Mathlib.TextPositions.{eq_refl}
use event_driven_notificatio.Prelude.{
  ◌/◌, ◌^◌, String, ◌≡◌, refl, ◌∙◌, true, Bool, false, some, none,
}
use event_driven_notificatio.Domain.Errors.{Error, Result, err, sentinel, circuit_open}
use event_driven_notificatio.Domain.Notification.{Notification, is_final, processing}
use event_driven_notificatio.Breaker.{CircuitBreaker, allow as breaker_allow}
use event_driven_notificatio.RateLimit.{allow as limiter_allow}
use event_driven_notificatio.Postgres.Notifications.{find_row, saved_row, update}
use event_driven_notificatio.Service.World.{
  UuidText, World, Outside, SendRequest, Reply, loading, marking_processing, asking_breaker,
  asking_limiter, marking_failed, burying,
}
use event_driven_notificatio.Service.Delivery.{
  DeliveryService, save, publish_event, process, guarded, limited, put_breaker,
}
use event_driven_notificatio.Service.Delivery.Stages.{
  save_hit, started, started_world, process_open,
}
use event_driven_notificatio.Service.Delivery.Charge.{
  IsCharged, handle_retry-IsCharged, handle_retry_frame,
}

-- The state of an open notification's delivery: the row is there, the breaker of its channel, and a
-- database that answers the first two calls.
pub record IsOpen (u : UuidText) (o : Outside) (text : String) (n : Notification)
    (cb : CircuitBreaker) (w : World) : Type 0 where
  pub parses : u.parse text ≡ some n.id
  pub found : find_row n.id w.rows ≡ some n
  pub not_final : is_final n.status ≡ false
  pub guard : w.breakers n.channel ≡ some cb
  pub loads : o.fails loading ≡ none
  pub marks : o.fails marking_processing ≡ none

-- The limiter's answer to the request, and the breaker after its own.
abbrev pub limiter_answer : DeliveryService → Outside → Notification → World → Result Bool
limiter_answer s o n w =
    (limiter_allow s.limiter (o.fails asking_limiter) (o.clock asking_limiter / 10 ^ 6) o.request_id
      n.channel w.windows).0

abbrev pub asked : Outside → CircuitBreaker → CircuitBreaker × Bool
asked o cb = breaker_allow (o.clock asking_breaker) cb

module _ (u : UuidText) (s : DeliveryService) (provider : SendRequest → Reply) (o : Outside)
    (text : String) (n : Notification) (cb : CircuitBreaker) (w : World) where
  -- the row in processing
  unfoldable pub marked_row : Notification
  unfolding saved_row
  marked_row = saved_row (o.clock marking_processing) (record n { status = processing }) n

  pub started_row :
      IsOpen u o text n cb w
      → find_row n.id (started_world u s provider o n w).rows ≡ some marked_row
  unfolding started_world publish_event marked_row saved_row
  started_row h =
      save_hit (o.clock marking_processing) (record n { status = processing }) w ∙ rw h.found refl

  -- An open notification that the breaker refuses is charged with ErrCircuitOpen; the provider and the limiter are not asked.
  pub process_refused :
      IsOpen u o text n cb w
      → (asked o cb).1 ≡ false
      → o.fails marking_failed ≡ none
      → o.fails burying ≡ none
      → let (reply, w') = process u s provider o text w in
        (reply ≡ err (sentinel circuit_open))
        × IsCharged u s o (sentinel circuit_open) (started u s provider o n) w.dead_letters w'
        × (w'.windows ≡ w.windows)
        × (w'.attempts ≡ w.attempts)
  unfolding guarded put_breaker started_world publish_event save update
  process_refused h b mark bury =
      let n1 = started u s provider o n in
      let w1 = put_breaker n.channel (asked o cb).0 (started_world u s provider o n w) in
      let frame = handle_retry_frame u s o (sentinel circuit_open) n1 w1 in
      rw (process_open u s provider o text n.id n w h.parses h.found h.not_final h.loads h.marks) (
        rw h.guard (
          rw b (
            refl,
            handle_retry-IsCharged u s o (sentinel circuit_open) n1 marked_row w1 (started_row h)
                (unfold marked_row in refl) mark bury,
            frame.2,
            frame.0,
          )))

  -- the breaker and the limiter let it through to `limited`
  unfoldable pub at_limiter : World
  at_limiter = record (put_breaker n.channel (asked o cb).0 (started_world u s provider o n w)) {
    windows =
        (limiter_allow s.limiter (o.fails asking_limiter) (o.clock asking_limiter / 10 ^ 6)
          o.request_id n.channel w.windows).1;
  }

  pub process_limited :
      IsOpen u o text n cb w
      → (asked o cb).1 ≡ true
      → (reply : Result Bool) → limiter_answer s o n w ≡ reply
      → process u s provider o text w
        ≡ limited u s provider o reply (asked o cb).0 (started u s provider o n) at_limiter
  unfolding guarded put_breaker started_world publish_event save update at_limiter
  process_limited h b reply e =
      rw (process_open u s provider o text n.id n w h.parses h.found h.not_final h.loads h.marks)
        (rw h.guard (rw b (rw e refl)))

  -- When the limiter's call fails, Process answers its error and leaves the notification in
  -- processing: its row says so, no queue, attempt or dead letter changes, and the breaker keeps
  -- the trial that it handed out, with no result recorded.
  pub process_stranded :
      (e : Error)
      → IsOpen u o text n cb w
      → (asked o cb).1 ≡ true
      → limiter_answer s o n w ≡ err e
      → let (reply, w') = process u s provider o text w in
        (reply ≡ err e)
        × ((r : Notification) × (find_row n.id w'.rows ≡ some r)
            × (r.status ≡ processing)
            × (r.retry_count ≡ n.retry_count))
        × (w'.queues ≡ w.queues)
        × (w'.attempts ≡ w.attempts)
        × (w'.dead_letters ≡ w.dead_letters)
        × (w'.breakers n.channel ≡ some (asked o cb).0)
  unfolding limited at_limiter
  process_stranded e h b l = rw (process_limited h b (err e) l) (
    refl,
    (
      marked_row,
      started_row h,
      unfold marked_row saved_row in refl,
      unfold marked_row saved_row in refl,
    ),
    unfold started_world save publish_event in refl,
    unfold started_world save publish_event in refl,
    unfold started_world save publish_event in refl,
    rw (eq_refl n.channel) refl,
  )
