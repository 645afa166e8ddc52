-- ===== src/Service/Delivery/Replies.antt =====
-- What Process of internal/service/delivery.go does once the breaker lets a notification through:
-- the limiter refuses it, the provider takes it, the provider fails.
use text.Mathlib.TextPositions.{eq_refl}
use event_driven_notificatio.Prelude.{
  ◌/◌, ◌^◌, String, ◌≡◌, refl, ap, ◌∙◌, true, false, Option, some, none, List, [], ◌∷◌, ◌++◌,
}
use event_driven_notificatio.Domain.Errors.{Error, message, ok, err, sentinel, rate_limited}
use event_driven_notificatio.Domain.Notification.{Notification, queued, delivered}
use event_driven_notificatio.Breaker.{CircuitBreaker, record_success, record_failure}
use event_driven_notificatio.Queue.{QueueMessage, enqueue}
use event_driven_notificatio.Postgres.Notifications.{find_row, saved_row}
use event_driven_notificatio.Postgres.Records.{create_attempt}
use event_driven_notificatio.Service.World.{
  UuidText, StatusEvent, World, Outside, SendRequest, Reply, responded, refused, requeueing,
  marking_queued, logging_attempt, recording_failure, taking_sent_at, marking_delivered,
  marking_failed, burying, failure,
}
use event_driven_notificatio.Service.Delivery.{
  DeliveryService, save, publish_event, process, limited, settle, put_back, put_breaker,
  log_attempt, attempt_of, message_id, send_request,
}
use event_driven_notificatio.Service.Delivery.Stages.{save_hit, started, started_world}
use event_driven_notificatio.Service.Delivery.Charge.{
  IsCharged, handle_retry-IsCharged, handle_retry_frame,
}
use event_driven_notificatio.Service.Delivery.Outcomes.{
  IsOpen, limiter_answer, asked, marked_row, started_row, at_limiter, process_limited,
}

abbrev pub statuses : List StatusEvent → List String
statuses [] = []
statuses (e ∷ es) = e.status ∷ statuses es

statuses_twice :
    (es : List StatusEvent) (a b : StatusEvent)
    → statuses ((es ++ a ∷ []) ++ b ∷ []) ≡ statuses es ++ a.status ∷ b.status ∷ []
statuses_twice [] a b = refl
statuses_twice (e ∷ es) a b = ap (λ l. e.status ∷ l) (statuses_twice es a b)

module _ (u : UuidText) (s : DeliveryService) (provider : SendRequest → Reply) (o : Outside)
    (text : String) (n : Notification) (cb : CircuitBreaker) (w : World) where
  -- The message that goes back into the queue.
  abbrev pub message_of : QueueMessage
  message_of = record {
    notification_id = u.format n.id;
    channel = n.channel;
    priority = n.priority;
    trace_parent = "";
  }

  -- An open notification that the limiter refuses goes back into its queue: its row is queued
  -- again, with no retry counted, and nothing is sent or logged. The breaker keeps the trial that
  -- it handed out.
  pub process_put_back :
      IsOpen u o text n cb w
      → (asked o cb).1 ≡ true
      → limiter_answer s o n w ≡ ok false
      → o.fails requeueing ≡ none
      → o.fails marking_queued ≡ none
      → let (reply, w') = process u s provider o text w in
        (reply ≡ err (sentinel rate_limited))
        × ((r : Notification) × (find_row n.id w'.rows ≡ some r)
            × (r.status ≡ queued)
            × (r.retry_count ≡ n.retry_count))
        × (w'.queues ≡ (enqueue none (o.clock requeueing / 10 ^ 6) message_of w.queues).1)
        × (w'.attempts ≡ w.attempts)
        × (w'.dead_letters ≡ w.dead_letters)
        × (w'.breakers n.channel ≡ some (asked o cb).0)
  unfolding limited put_back save at_limiter
  process_put_back h b l re mark =
      let n1 = started u s provider o n in
      let hit =
        save_hit (o.clock marking_queued) (record n1 { status = queued })
          (at_limiter u s provider o text n cb w) in
      rw (process_limited u s provider o text n cb w h b (ok false) l) (
        rw (re, mark)
          (
            refl,
            (
              saved_row (o.clock marking_queued) (record n1 { status = queued })
                  (marked_row u s provider o text n cb w),
              hit ∙ rw (started_row u s provider o text n cb w h) refl,
              unfold saved_row in refl,
              unfold saved_row in refl,
            ),
            unfold started_world publish_event enqueue in refl,
            unfold started_world publish_event in refl,
            unfold started_world publish_event in refl,
            rw (eq_refl n.channel) refl,
          ))

  -- An open notification that the provider refuses: the attempt is logged as a failure with its
  -- number and the error, the breaker of the channel records a failure, and the error is charged
  -- to the notification. The queues stay as they are.
  pub process_fails :
      (e : Error)
      → IsOpen u o text n cb w
      → (asked o cb).1 ≡ true
      → limiter_answer s o n w ≡ ok true
      → provider (send_request u s provider o n) ≡ refused e
      → o.fails logging_attempt ≡ none
      → o.fails marking_failed ≡ none
      → o.fails burying ≡ none
      → let (reply, w') = process u s provider o text w in
        (reply ≡ err e)
        × IsCharged u s o e (started u s provider o n) w.dead_letters w'
        × (w'.attempts
            ≡ w.attempts
              ++ record (attempt_of u s o n) {
                status = "failure";
                error_message = some (message e);
              }
                ∷ [])
        × (w'.breakers n.channel ≡ some (record_failure (o.clock recording_failure) (asked o cb).0))
        × (w'.metrics ≡ w.metrics ++ failure ∷ [])
        × (w'.queues ≡ w.queues)
  unfolding limited settle put_breaker log_attempt create_attempt at_limiter attempt_of send_request
      started_world publish_event save
  process_fails e h b l sent logs mark bury =
      let n1 = started u s provider o n in
      rw (process_limited u s provider o text n cb w h b (ok true) l) (
        rw (sent, logs)
          (
            refl,
            handle_retry-IsCharged u s o e n1 (marked_row u s provider o text n cb w) _
                (started_row u s provider o text n cb w h) (unfold marked_row saved_row in refl)
                mark bury,
            (handle_retry_frame u s o e n1 _).0,
            ap (λ f. f n.channel) (handle_retry_frame u s o e n1 _).3 ∙ rw (eq_refl n.channel) refl,
            (handle_retry_frame u s o e n1 _).4,
            (handle_retry_frame u s o e n1 _).1,
          ))

  -- An open notification that the provider takes: its row is delivered, with the provider's message
  -- ID, and keeps its retry count; the attempt is logged as a success with its number, the breaker
  -- of the channel records a success, and two events are published, for processing and for
  -- delivered. The queues and the dead letters stay as they are.
  pub process_delivers :
      (sent_id : Option String)
      → IsOpen u o text n cb w
      → (asked o cb).1 ≡ true
      → limiter_answer s o n w ≡ ok true
      → provider (send_request u s provider o n) ≡ responded sent_id
      → o.fails logging_attempt ≡ none
      → o.fails marking_delivered ≡ none
      → let (reply, w') = process u s provider o text w in
        (reply ≡ ok tt)
        × ((r : Notification) × (find_row n.id w'.rows ≡ some r)
            × (r.status ≡ delivered)
            × (r.sent_at ≡ some (o.clock taking_sent_at))
            × (r.provider_msg_id ≡ message_id u s o sent_id n.provider_msg_id)
            × (r.retry_count ≡ n.retry_count))
        × (w'.attempts
            ≡ w.attempts
              ++ record (attempt_of u s o n) { status = "success"; provider_msg_id = sent_id } ∷ [])
        × (w'.breakers n.channel ≡ some (record_success (asked o cb).0))
        × (statuses w'.events ≡ statuses w.events ++ "processing" ∷ "delivered" ∷ [])
        × (w'.queues ≡ w.queues)
        × (w'.dead_letters ≡ w.dead_letters)
  unfolding limited settle put_breaker log_attempt create_attempt at_limiter attempt_of send_request
      started_world publish_event save
  process_delivers sent_id h b l sent logs mark =
      let n1 = started u s provider o n in
      let n2 : Notification = record n1 {
        status = delivered;
        sent_at = some (o.clock taking_sent_at);
        provider_msg_id = message_id u s o sent_id n.provider_msg_id;
      } in
      let hit = save_hit (o.clock marking_delivered) n2 (at_limiter u s provider o text n cb w) in
      rw (process_limited u s provider o text n cb w h b (ok true) l) (
        rw (sent, logs, mark)
          (
            refl,
            (
              saved_row (o.clock marking_delivered) n2 (marked_row u s provider o text n cb w),
              hit ∙ rw (started_row u s provider o text n cb w h) refl,
              unfold saved_row in refl,
              unfold saved_row in refl,
              unfold saved_row in refl,
              unfold saved_row in refl,
            ),
            refl,
            rw (eq_refl n.channel) refl,
            statuses_twice w.events _ _,
            refl,
            refl,
          ))
