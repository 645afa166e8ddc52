-- ===== src/Service/Scheduler.antt =====
-- internal/service/scheduler.go: one poll of SchedulerService and one of RetryPoller. The loops
-- around them run a poll at every tick until their context ends.
pub mod Handover
use event_driven_notificatio.Prelude.{ℕ, Bool, Option, List, [], ◌∷◌, map, ◌/◌, ◌^◌}
use event_driven_notificatio.Domain.Errors.{Error, Result, ok, err, panics}
use event_driven_notificatio.Domain.Notification.{Uuid, Time, Notification}
use event_driven_notificatio.Queue.{QueueMessage, Queues, enqueue_batch}
use event_driven_notificatio.Postgres.Notifications.{Rows, get_scheduled_ready, get_retry_ready}
use event_driven_notificatio.Service.World.{UuidText}

-- What one poll finds outside the program: the failures of the database and of the pipeline, with
-- the number of its commands that took effect; the rows that others lock; the clocks.
pub record PollOutside : Type 0 where
  pub query_fails : Option Error
  pub locked : Uuid → Bool
  pub now : Time
  pub pipeline_fails : Option (Error × ℕ)
  pub clock_ms : ℕ → ℕ

abbrev pub queue_message : UuidText → Notification → QueueMessage
queue_message u n = record {
  notification_id = u.format n.id;
  channel = n.channel;
  priority = n.priority;
  trace_parent = "";
}

-- The rest of a poll, from the result of its query.
unfoldable pub enqueue_found : UuidText → PollOutside → Result (List Notification) → Queues → Queues
enqueue_found u o (err e) q = q
enqueue_found u o panics q = q
enqueue_found u o (ok []) q = q
enqueue_found u o (ok (n ∷ ns)) q =
    (enqueue_batch o.pipeline_fails o.clock_ms (map (queue_message u) (n ∷ ns)) q).1

-- SchedulerService.poll
unfoldable pub scheduler_poll : UuidText → PollOutside → Rows → Queues → Rows × Queues
unfolding enqueue_found
scheduler_poll u o rows q =
    let (reply, rows') = get_scheduled_ready o.query_fails o.locked o.now 100 rows in
    (rows', enqueue_found u o reply q)

-- RetryPoller.poll
unfoldable pub retry_poll : UuidText → PollOutside → Rows → Queues → Rows × Queues
unfolding enqueue_found
retry_poll u o rows q =
    let (reply, rows') = get_retry_ready o.query_fails o.locked o.now 100 rows in
    (rows', enqueue_found u o reply q)
