-- ===== src/Worker/Sends.antt =====
-- A notification that the API creates (internal/service/notification.go), and the round of a worker
-- (cmd/worker/main.go) that takes its message.
use mathlib.Core.List.{append_assoc}
use event_driven_notificatio.Prelude.{
  ◌≡◌, refl, ap, ◌∙◌, true, Option, none, some, List, [], ◌∷◌, ◌++◌, ◌/◌, ◌^◌, String,
}
use event_driven_notificatio.Domain.Errors.{ok}
use event_driven_notificatio.Domain.Notification.{
  Notification, delivered, new_notification, is_final,
}
use event_driven_notificatio.Breaker.{CircuitBreaker}
use event_driven_notificatio.Queue.{
  QueueMessage, Queues, queue_key, processing_key, find_id, calc_score,
}
use event_driven_notificatio.Queue.Cycle.{first_waits}
use event_driven_notificatio.Postgres.Notifications.{find_row, inserted_row}
use event_driven_notificatio.Service.World.{
  UuidText, World, SendRequest, Reply, responded, logging_attempt, marking_delivered, loading,
  marking_processing, StatusEvent,
}
use event_driven_notificatio.Service.Templates.{Engine}
use event_driven_notificatio.Service.Intake.{CreateNotificationRequest}
use event_driven_notificatio.Service.Scheduler.{queue_message}
use event_driven_notificatio.Service.Create.{
  Store, CreateOutside, requested, created_event, create_notification,
}
use event_driven_notificatio.Service.Create.Sends.{
  IsPlain, queued_row, queued_request, create_sends,
}
use event_driven_notificatio.Service.Delivery.{DeliveryService, send_request, message_id}
use event_driven_notificatio.Service.Delivery.Outcomes.{IsOpen, limiter_answer, asked}
use event_driven_notificatio.Service.Delivery.Replies.{statuses}
use event_driven_notificatio.Worker.{RoundOutside, handled, round}
use event_driven_notificatio.Worker.Delivers.{QueueAnswers, round_delivers}

-- What the API's process works on, of the world that it shares with the workers.
abbrev pub store_of : World → Store
store_of w = record { rows = w.rows; queues = w.queues; events = w.events }

abbrev pub with_store : Store → World → World
with_store st w = record w { rows = st.rows; queues = st.queues; events = st.events }

statuses-append : (es fs : List StatusEvent) → statuses (es ++ fs) ≡ statuses es ++ statuses fs
statuses-append [] fs = refl
statuses-append (e ∷ es) fs = ap (λ (l : List String). e.status ∷ l) (statuses-append es fs)

module _ (u : UuidText) (engine : Engine) (c : CreateOutside) (req : CreateNotificationRequest)
    (s : DeliveryService) (provider : SendRequest → Reply) (o : RoundOutside) (w : World) where
  -- No call of the round fails, and the breaker, the limiter and the provider take the notification.
  pub record IsServed (cb : CircuitBreaker) (sent_id : Option String) : Type 0 where
    pub queue : QueueAnswers u s provider req.channel o w
    pub guard : w.breakers req.channel ≡ some cb
    pub loads : o.delivery.fails loading ≡ none
    pub marks : o.delivery.fails marking_processing ≡ none
    pub logs : o.delivery.fails logging_attempt ≡ none
    pub saves : o.delivery.fails marking_delivered ≡ none
    pub allowed : (asked o.delivery cb).1 ≡ true
    pub granted : limiter_answer s o.delivery (queued_row u engine c req) w ≡ ok true
    pub sent :
        provider (send_request u s provider o.delivery (queued_row u engine c req))
        ≡ responded sent_id

  message_id-none : (id : Option String) → message_id u s o.delivery id none ≡ id
  unfolding message_id
  message_id-none none = refl
  message_id-none (some id) = refl

  -- A request for now, with its own text and no idempotency key, which nothing refuses and whose ID is
  -- new; and then a round of a worker on the channel's queue, which was empty, in which no call fails
  -- and the breaker, the limiter and the provider take the notification, while the channel's
  -- processing set has no message of its ID. Create answers the notification, queued; its row is
  -- delivered, with the provider's message ID; the events for queued, processing and delivered are
  -- published, in this order; the queue is empty again, and the processing set as it was.
  pub created_delivered :
      (cb : CircuitBreaker) (sent_id : Option String)
      → IsPlain u engine c req w.rows
      → w.queues.waiting (queue_key req.channel) ≡ []
      → find_id (u.format c.id) (w.queues.in_process (processing_key req.channel)) ≡ none
      → IsServed cb sent_id
      → let (reply, st') = create_notification u engine c req (store_of w) in
        let (r, w') = round u s provider req.channel o (with_store st' w) in
        (reply ≡ ok (queued_request u engine c req))
        × (r ≡ handled (ok tt))
        × ((row : Notification) × (find_row c.id w'.rows ≡ some row)
            × (row.status ≡ delivered)
            × (row.provider_msg_id ≡ sent_id))
        × (statuses w'.events ≡ statuses w.events ++ "queued" ∷ "processing" ∷ "delivered" ∷ [])
        × (w'.queues.waiting (queue_key req.channel) ≡ [])
        × (w'.queues.in_process (processing_key req.channel)
            ≡ w.queues.in_process (processing_key req.channel))
  unfolding requested new_notification inserted_row
  created_delivered cb sent_id plain empty absent h =
      let d = create_sends u engine c req (store_of w) plain in
      let w1 : World = with_store (create_notification u engine c req (store_of w)).1 w in
      let m : QueueMessage = queue_message u (queued_request u engine c req) in
      let first = first_waits (c.enqueued_at / 10 ^ 6) m w.queues empty in
      let waits : w1.queues.waiting (queue_key req.channel)
          ≡ (calc_score m.priority (c.enqueued_at / 10 ^ 6), m) ∷ [] =
        ap (λ (q : Queues). q.waiting (queue_key req.channel)) d.2 ∙ first.0 in
      let open_row : IsOpen u o.delivery m.notification_id (queued_row u engine c req) cb w1 =
        record {
          parses = u.parse-format c.id;
          found = d.1;
          not_final = unfold is_final in refl;
          guard = h.guard;
          loads = h.loads;
          marks = h.marks;
        } in
      let kept : w1.queues.in_process (processing_key req.channel)
          ≡ w.queues.in_process (processing_key req.channel) =
        ap (λ (q : Queues). q.in_process (processing_key req.channel)) d.2
        ∙ ap (λ (k : String → List QueueMessage). k (processing_key req.channel)) first.1 in
      let told : statuses w1.events ≡ statuses w.events ++ "queued" ∷ [] =
        ap statuses d.3 ∙ (statuses-append w.events _ ∙ unfold created_event in refl) in
      let r =
        round_delivers u s provider req.channel o w1 _ m [] (queued_row u engine c req) cb sent_id
          (record { dequeues = h.queue.dequeues; lists = h.queue.lists; removes = h.queue.removes })
          waits (ap (find_id m.notification_id) kept ∙ absent) open_row h.allowed h.granted h.sent
          h.logs h.saves in
      (
        d.0,
        r.0,
        (r.1.0, r.1.1, r.1.2, r.1.3 ∙ message_id-none sent_id),
        r.2
            ∙ ap (λ (l : List String). l ++ "processing" ∷ "delivered" ∷ []) told
            ∙ append_assoc (statuses w.events) ("queued" ∷ []) ("processing" ∷ "delivered" ∷ []),
        r.3,
        r.4 ∙ kept,
      )
