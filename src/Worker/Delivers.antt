-- ===== src/Worker/Delivers.antt =====
-- One round of a worker (cmd/worker/main.go) on a message whose notification can be sent.
use event_driven_notificatio.Prelude.{ℕ, String, ◌≡◌, refl, true, Option, none, some, [], ◌∷◌, ◌++◌}
use event_driven_notificatio.Domain.Errors.{Result, ok, err, panics}
use event_driven_notificatio.Domain.Notification.{Channel, Notification, delivered}
use event_driven_notificatio.Breaker.{CircuitBreaker}
use event_driven_notificatio.Queue.{ZSet, QueueMessage, queue_key, processing_key, find_id, dequeue}
use event_driven_notificatio.Queue.Handoff.{dequeue_hands_over}
use event_driven_notificatio.Queue.Cycle.{acknowledge-dequeue}
use event_driven_notificatio.Postgres.Notifications.{find_row}
use event_driven_notificatio.Service.World.{
  UuidText, World, SendRequest, Reply, responded, logging_attempt, marking_delivered,
}
use event_driven_notificatio.Service.Delivery.{DeliveryService, process, send_request, message_id}
use event_driven_notificatio.Service.Delivery.Outcomes.{IsOpen, limiter_answer, asked}
use event_driven_notificatio.Service.Delivery.Replies.{process_delivers, statuses}
use event_driven_notificatio.Worker.{
  RoundOutside, handled, acknowledged, processed, dequeued, round,
}

module _ (u : UuidText) (s : DeliveryService) (provider : SendRequest → Reply) (channel : Channel)
    (o : RoundOutside) (w : World) where
  processed_ok :
      (id : String) (r : Result (Unit {0}) × World)
      → r.0 ≡ ok tt
      → processed u s provider channel o id r
        ≡ (handled (ok tt), acknowledged u s provider channel o id r.1)
  unfolding processed
  processed_ok id (ok x, w1) h = refl
  processed_ok id (err e, w1) h = cc
  processed_ok id (panics, w1) h = cc

  -- Nothing of the queue's calls fails.
  pub record QueueAnswers : Type 0 where
    pub dequeues : o.dequeue_fails ≡ none
    pub lists : o.smembers_fails ≡ none
    pub removes : o.srem_fails ≡ none

  -- A round on a queue whose first message is that of an open notification, which the breaker and the
  -- limiter let through and the provider takes, while no call fails and no other message of that ID
  -- is in the channel's processing set: the notification's row is delivered, with the provider's
  -- message ID; the events for processing and delivered are published; and the message is gone, from
  -- the queue, whose rest stays, and from the processing set, which is as before.
  pub round_delivers :
      (sc : ℕ) (m : QueueMessage) (z : ZSet) (n : Notification) (cb : CircuitBreaker)
      (sent_id : Option String)
      → QueueAnswers
      → w.queues.waiting (queue_key channel) ≡ (sc, m) ∷ z
      → find_id m.notification_id (w.queues.in_process (processing_key channel)) ≡ none
      → IsOpen u o.delivery m.notification_id n cb w
      → (asked o.delivery cb).1 ≡ true
      → limiter_answer s o.delivery n w ≡ ok true
      → provider (send_request u s provider o.delivery n) ≡ responded sent_id
      → o.delivery.fails logging_attempt ≡ none
      → o.delivery.fails marking_delivered ≡ none
      → let (r, w') = round u s provider channel o w in
        (r ≡ handled (ok tt))
        × ((row : Notification) × (find_row n.id w'.rows ≡ some row)
            × (row.status ≡ delivered)
            × (row.provider_msg_id ≡ message_id u s o.delivery sent_id n.provider_msg_id))
        × (statuses w'.events ≡ statuses w.events ++ "processing" ∷ "delivered" ∷ [])
        × (w'.queues.waiting (queue_key channel) ≡ z)
        × (w'.queues.in_process (processing_key channel)
            ≡ w.queues.in_process (processing_key channel))
  unfolding round dequeued
  round_delivers sc m z n cb sent_id a e absent h b l sent logs marks =
      let q = (dequeue none channel w.queues).1 in
      let w1 : World = record w { queues = q } in
      let h1 : IsOpen u o.delivery m.notification_id n cb w1 = record {
        parses = h.parses;
        found = h.found;
        not_final = h.not_final;
        guard = h.guard;
        loads = h.loads;
        marks = h.marks;
      } in
      let d =
        process_delivers u s provider o.delivery m.notification_id n cb w1 sent_id h1 b l sent logs
          marks in
      let c = acknowledge-dequeue channel sc m z w.queues e absent in
      let answers : (dequeue o.dequeue_fails channel w.queues).0 ≡ ok (some m) =
        rw (a.dequeues) (dequeue_hands_over channel sc m z w.queues e).0 in
      let same : (dequeue o.dequeue_fails channel w.queues).1 ≡ q = rw (a.dequeues) refl in
      rw answers (
        rw same (
          rw
            (processed_ok m.notification_id (process u s provider o.delivery m.notification_id w1)
              d.0)
            (unfold acknowledged in
              (
                refl,
                (d.1.0, d.1.1, d.1.2, d.1.4),
                d.4,
                rw (a.lists, a.removes, d.5) c.0,
                rw (a.lists, a.removes, d.5) c.1,
              ))))
