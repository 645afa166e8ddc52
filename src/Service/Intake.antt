-- ===== src/Service/Intake.antt =====
-- internal/service/notification.go: validateContent, CreateBatch, Cancel and CancelBatch.
pub mod Accounts
pub mod Keeps
use Prim.Native.String.{len}
use event_driven_notificatio.Prelude.{
  ℕ, zero, suc, ◌+◌, String, Bool, true, false, Option, none, some, List, [], ◌∷◌, ◌++◌, length,
  ltb, str_eq, if◌then◌else◌, is_some, ◌/◌, ◌^◌,
}
use event_driven_notificatio.Domain.Errors.{
  Error, Sentinel, sentinel, sentinel_text, empty_content, content_too_long, batch_too_large,
  Result, ok, err, panics,
}
use event_driven_notificatio.Domain.Notification.{
  Uuid, Time, Channel, channel_sms, channel_push, channel_email, is_valid, Vars, scheduled, queued,
  cancelled, status_text, Notification, new_notification, priority_from_string,
}
use event_driven_notificatio.Domain.Batch.{max_batch_size, BatchError, BatchResult}
use event_driven_notificatio.Queue.{QueueMessage, Queues, enqueue_batch}
use event_driven_notificatio.Postgres.Notifications.{
  Rows, create_batch, cancel_by_id, cancel_by_batch_id,
}
use event_driven_notificatio.Service.World.{UuidText, StatusEvent}

-- CreateNotificationRequest
pub record CreateNotificationRequest : Type 0 where
  pub channel : String
  pub recipient : String
  pub subject : String
  pub content : String
  pub priority : String
  pub scheduled_at : Option Time
  pub template_id : Option Uuid
  pub template_vars : Option Vars
  pub idempotency_key : Option String
  pub metadata : Option Vars

abbrev pub longer_than : ℕ → String → Option Sentinel
longer_than n content = if ltb n (len content) then some content_too_long else none

-- validateContent; a length is in bytes.
unfoldable pub validate_content : Channel → String → Option Sentinel
validate_content channel content =
    if str_eq content ""
    then some empty_content
    else if str_eq channel channel_sms
    then longer_than 1600 content
    else if str_eq channel channel_push
    then longer_than 4096 content
    else if str_eq channel channel_email
    then longer_than 100000 content
    else none

-- err.Error()
abbrev pub reason_of : Option Sentinel → Option String
reason_of none = none
reason_of (some s) = some (sentinel_text s)

-- Why the loop of CreateBatch rejects a request, or none.
unfoldable pub rejection : CreateNotificationRequest → Option String
unfolding validate_content
rejection req =
    if is_valid req.channel
    then reason_of (validate_content req.channel req.content)
    else some "invalid channel"

-- `n.Metadata` of NewNotification, unless the request has one
abbrev or_metadata : Option Vars → Option Vars → Option Vars
or_metadata none m = m
or_metadata (some v) m = some v

-- The notification of an accepted request, before its schedule.
unfoldable pub batch_notification : Uuid → Uuid → Time → CreateNotificationRequest → Notification
unfolding new_notification
batch_notification batch_id id now req =
    let n =
      new_notification id now req.channel req.recipient req.content
        (priority_from_string req.priority) in
    record n {
      batch_id = some batch_id;
      subject = req.subject;
      idempotency_key = req.idempotency_key;
      template_id = req.template_id;
      template_vars = req.template_vars;
      metadata = or_metadata req.metadata n.metadata;
    }

-- req.ScheduledAt != nil && req.ScheduledAt.After(now)
abbrev pub is_later : Option Time → Time → Bool
is_later none now = false
is_later (some t) now = ltb now t

-- What the loop of CreateBatch has built.
pub record Intake : Type 0 where
  pub result : BatchResult
  pub notifications : List Notification
  pub messages : List QueueMessage

-- The new UUIDs and the clock readings of a call, by the index of the request; and its failures.
pub record IntakeOutside : Type 0 where
  pub batch_id : Uuid
  pub ids : ℕ → Uuid
  pub created_at : ℕ → Time
  pub scheduling_at : ℕ → Time
  pub insert_fails : Option Error
  pub pipeline_fails : Option (Error × ℕ)
  pub clock_ms : ℕ → ℕ

module _ (u : UuidText) (o : IntakeOutside) where
  unfoldable pub reject : ℕ → String → Intake → Intake
  reject i why a = record a {
    result = record (a.result) {
      rejected = a.result.rejected + 1;
      errors = a.result.errors ++ record { index = i; message = why } ∷ [];
    };
  }

  unfoldable pub accept : ℕ → CreateNotificationRequest → Intake → Intake
  unfolding batch_notification
  accept i req a =
      let n = batch_notification o.batch_id (o.ids i) (o.created_at i) req in
      let later = is_later req.scheduled_at (o.scheduling_at i) in
      let n' : Notification =
        if later
        then record n { scheduled_at = req.scheduled_at; status = scheduled }
        else record n { status = queued } in
      let msg : QueueMessage = record {
        notification_id = u.format n.id;
        channel = n.channel;
        priority = n.priority;
        trace_parent = "";
      } in
      record {
        result = record (a.result) {
          accepted = a.result.accepted + 1;
          notifications = a.result.notifications ++ n.id ∷ [];
        };
        notifications = a.notifications ++ n' ∷ [];
        messages = if later then a.messages else a.messages ++ msg ∷ [];
      }

  pub take_in : Option String → ℕ → CreateNotificationRequest → Intake → Intake
  unfolding reject accept
  take_in (some why) i req a = reject i why a
  take_in none i req a = accept i req a

  -- The loop of CreateBatch.
  unfoldable pub batch_loop : ℕ → List CreateNotificationRequest → Intake → Intake
  unfolding take_in rejection
  batch_loop i [] a = a
  batch_loop i (req ∷ reqs) a = batch_loop (suc i) reqs (take_in (rejection req) i req a)

  unfoldable pub no_intake : ℕ → Intake
  no_intake total = record {
    result = record {
      batch_id = o.batch_id;
      total = total;
      accepted = 0;
      rejected = 0;
      notifications = [];
      errors = [];
    };
    notifications = [];
    messages = [];
  }

  -- the queue, unless there is nothing to enqueue
  enqueued : List QueueMessage → Queues → Queues
  enqueued [] q = q
  enqueued (m ∷ ms) q = (enqueue_batch o.pipeline_fails o.clock_ms (m ∷ ms) q).1

  -- CreateBatch behind its loop, from the result of the repository's CreateBatch
  pub stored : Result (Unit {0}) → Intake → Rows → Queues → Result BatchResult × Rows × Queues
  unfolding enqueued
  stored (err e) a rows q = (err e, rows, q)
  stored panics a rows q = (panics, rows, q)
  stored (ok _) a rows q = (ok a.result, rows, enqueued a.messages q)

  pub store : List Notification → Intake → Rows → Queues → Result BatchResult × Rows × Queues
  unfolding stored
  store [] a rows q = (ok a.result, rows, q)
  store (n ∷ ns) a rows q =
      let (reply, rows') = create_batch o.insert_fails (n ∷ ns) rows in stored reply a rows' q

  -- NotificationService.CreateBatch
  unfoldable pub create_notifications :
      List CreateNotificationRequest → Rows → Queues → Result BatchResult × Rows × Queues
  unfolding batch_loop no_intake store
  create_notifications reqs rows q =
      let a = batch_loop 0 reqs (no_intake (length reqs)) in
      if ltb max_batch_size (length reqs)
      then (err (sentinel batch_too_large), rows, q)
      else store a.notifications a rows q

-- The event of Cancel: only the ID, the status and the time.
unfoldable pub cancelled_event : UuidText → Uuid → Time → StatusEvent
cancelled_event u id now = record {
  notification_id = u.format id;
  batch_id = "";
  status = status_text cancelled;
  channel = "";
  timestamp = now / 10 ^ 9;
  error = "";
}

unfoldable pub announced :
    UuidText → Result (Unit {0}) → Uuid → Time → List StatusEvent → List StatusEvent
unfolding cancelled_event
announced u (err e) id now events = events
announced u panics id now events = events
announced u (ok _) id now events = events ++ cancelled_event u id now ∷ []

-- NotificationService.Cancel: the answer, the rows and the events.
unfoldable pub cancel_notification :
    UuidText
    → Option Error
    → Option Error
    → Time
    → Uuid
    → Rows
    → List StatusEvent
    → Result (Unit {0}) × Rows × List StatusEvent
unfolding announced
cancel_notification u fault exists_fault now id rows events =
    let (reply, rows') = cancel_by_id fault exists_fault now id rows in
    (reply, rows', announced u reply id now events)

-- NotificationService.CancelBatch
unfoldable pub cancel_notifications : Option Error → Time → Uuid → Rows → Result ℕ × Rows
cancel_notifications fault now batch rows = cancel_by_batch_id fault now batch rows
