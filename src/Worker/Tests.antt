-- ===== src/Worker/Tests.antt =====
-- Rounds of a worker (cmd/worker/main.go) on a queue of one message.
use event_driven_notificatio.Prelude.{
  ◌+◌, ◌^◌, ◌*◌, ◌≤◌, ◌≡◌, ◌⊎◌, refl, false, none, some, [], ◌∷◌, str_eq, if◌then◌else◌,
}
use event_driven_notificatio.Domain.Errors.{ok}
use event_driven_notificatio.Domain.Notification.{Notification, delivered}
use event_driven_notificatio.Breaker.{new, allow as breaker_allow}
use event_driven_notificatio.RateLimit.{new_limiter, allow as limiter_allow, sliding_window_script}
use event_driven_notificatio.Postgres.Notifications.{find_row}
use event_driven_notificatio.Queue.{QueueMessage, queue_key, processing_key, queue_depth, find_id}
use event_driven_notificatio.Service.World.{World}
use event_driven_notificatio.Service.Delivery.{message_id}
use event_driven_notificatio.Service.Delivery.Replies.{statuses}
use event_driven_notificatio.Service.Tests.{
  texts, outside, waiting, world, service, takes, world-IsTable, world-HasBreakers, world-IsOpen,
}
use event_driven_notificatio.Worker.{RoundOutside, handled, round, rounds}
use event_driven_notificatio.Worker.Drain.{all_put_backs, has_crash, rounds_drain}
use event_driven_notificatio.Worker.Delivers.{round_delivers}
use event_driven_notificatio.Domain.Notification.{is_valid, new_notification}
use event_driven_notificatio.Postgres.Notifications.{inserted_row}
use event_driven_notificatio.Service.Intake.{validate_content}
use event_driven_notificatio.Service.IntakeTests.{by_sms, plain_engine, create_outside}
use event_driven_notificatio.Service.Create.{requested, create_notification}
use event_driven_notificatio.Service.Create.Sends.{IsPlain, queued_request}
use event_driven_notificatio.Service.Delivery.{new_breakers}
use event_driven_notificatio.Worker.Sends.{store_of, with_store, created_delivered}

abbrev msg : QueueMessage
msg = record { notification_id = "xxxx"; channel = "sms"; priority = 1; trace_parent = "" }

abbrev busy : World
busy = record world {
  queues = record {
    waiting = λ k. if str_eq k (queue_key "sms") then (10 ^ 13 + 5, msg) ∷ [] else [];
    in_process = λ k. [];
  };
}

abbrev all_well : RoundOutside
all_well = record {
  dequeue_fails = none;
  smembers_fails = none;
  srem_fails = none;
  delivery = outside;
}

rounds_drain_example :
    let (rs, w') = rounds texts service takes "sms" (all_well ∷ all_well ∷ []) busy in
    (has_crash rs ≡ false)
    × ((queue_depth "sms" w'.queues ≡ 0)
        ⊎ (queue_depth "sms" w'.queues + 2 ≤ queue_depth "sms" busy.queues + all_put_backs rs))
rounds_drain_example =
    rounds_drain texts service takes "sms" (all_well ∷ all_well ∷ []) busy
      (record { table = world-IsTable; breakers = world-HasBreakers }) (refl, (refl, tt))

round_delivers_example :
    let (r, w') = round texts service takes "sms" all_well busy in
    (r ≡ handled (ok tt))
    × ((row : Notification) × (find_row 3 w'.rows ≡ some row)
        × (row.status ≡ delivered)
        × (row.provider_msg_id ≡ message_id texts service outside (some "m1") none))
    × (statuses w'.events ≡ "processing" ∷ "delivered" ∷ [])
    × (w'.queues.waiting (queue_key "sms") ≡ [])
    × (w'.queues.in_process (processing_key "sms") ≡ [])
round_delivers_example =
    let o = world-IsOpen outside refl refl in
    round_delivers texts service takes "sms" all_well busy (10 ^ 13 + 5) msg [] waiting
      (new 5 3 3 (30 * 10 ^ 9)) (some "m1")
      (record { dequeues = refl; lists = refl; removes = refl }) refl (unfold find_id in refl)
      (record {
        parses = o.parses;
        found = o.found;
        not_final = o.not_final;
        guard = o.guard;
        loads = o.loads;
        marks = o.marks;
      })
      (unfold breaker_allow new in refl)
      (unfold limiter_allow new_limiter sliding_window_script in refl) refl refl refl

sms_IsPlain : IsPlain texts plain_engine create_outside by_sms world.rows
unfolding is_valid validate_content requested new_notification
sms_IsPlain = record {
  channel = refl;
  content = refl;
  no_template = refl;
  no_key = refl;
  no_schedule = refl;
  fresh = refl;
  inserts = refl;
  marks = refl;
  enqueues = refl;
}

created_delivered_example :
    let (reply, st') =
      create_notification texts plain_engine create_outside by_sms (store_of world) in
    let (r, w') = round texts service takes "sms" all_well (with_store st' world) in
    (reply ≡ ok (queued_request texts plain_engine create_outside by_sms))
    × (r ≡ handled (ok tt))
    × ((row : Notification) × (find_row create_outside.id w'.rows ≡ some row)
        × (row.status ≡ delivered)
        × (row.provider_msg_id ≡ some "m1"))
    × (statuses w'.events ≡ "queued" ∷ "processing" ∷ "delivered" ∷ [])
    × (w'.queues.waiting (queue_key "sms") ≡ [])
    × (w'.queues.in_process (processing_key "sms") ≡ [])
created_delivered_example =
    created_delivered texts plain_engine create_outside by_sms service takes all_well world
      (new 5 3 3 (30 * 10 ^ 9)) (some "m1") sms_IsPlain refl (unfold find_id in refl)
      (record {
        queue = record { dequeues = refl; lists = refl; removes = refl };
        guard = unfold new_breakers in refl;
        loads = refl;
        marks = refl;
        logs = refl;
        saves = refl;
        allowed = unfold breaker_allow new in refl;
        granted =
            unfold limiter_allow new_limiter sliding_window_script requested new_notification
              inserted_row in
            refl;
        sent = refl;
      })
