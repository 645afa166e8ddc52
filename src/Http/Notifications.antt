-- ===== src/Http/Notifications.antt =====
-- internal/adapter/handler/notification.go. Each handler takes the decoded body, if it decodes, or
-- the texts of the path and of the query, and the failures that the service's call may meet.
pub mod Answers
use Prim.Native.String.{String}
use event_driven_notificatio.Prelude.{
  ℕ, Option, none, some, List, [], ◌∷◌, length, str_eq, if◌then◌else◌, ℤ, pos,
}
use event_driven_notificatio.Prelude.Decimal.{atoi}
use event_driven_notificatio.Domain.Errors.{
  Error, sentinel_text, empty_recipient, Result, ok, err, panics,
}
use event_driven_notificatio.Domain.Notification.{Uuid, Time, Notification}
use event_driven_notificatio.Domain.Batch.{BatchResult}
use event_driven_notificatio.Queue.{Queues}
use event_driven_notificatio.Postgres.Notifications.{Rows}
use event_driven_notificatio.Postgres.Listing.{NotificationFilter, PaginatedResult}
use event_driven_notificatio.Service.World.{UuidText, StatusEvent}
use event_driven_notificatio.Service.Templates.{Engine}
use event_driven_notificatio.Service.Intake.{
  CreateNotificationRequest, IntakeOutside, create_notifications, cancel_notification,
  cancel_notifications,
}
use event_driven_notificatio.Service.Create.{Store, CreateOutside, create_notification}
use event_driven_notificatio.Service.Lookup.{get_notification, get_batch, list_notifications}
use event_driven_notificatio.Http.Response.{Handled, wrote, refusal, success, answer}

abbrev pub invalid_body : {A : Type 0} → Handled A
invalid_body = wrote (refusal 400 "invalid request body")

abbrev pub invalid_id : {A : Type 0} → Handled A
invalid_id = wrote (refusal 400 "invalid notification ID")

abbrev pub invalid_batch_id : {A : Type 0} → Handled A
invalid_batch_id = wrote (refusal 400 "invalid batch ID")

-- The value of a page parameter; one that is left out or is no number is the default.
unfoldable pub int_param : String → ℤ → ℤ
unfolding atoi
int_param text default =
    if str_eq text "" then default else elim (atoi text) [ none ↦ default | some v ↦ v ]

abbrev pub text_param : String → Option String
text_param s = if str_eq s "" then none else some s

abbrev pub parsed_param {ℓ} : {A : Type ℓ} → (String → Option A) → String → Option A
parsed_param parse s = if str_eq s "" then none else parse s

-- The parameters of List.
pub record ListQuery : Type 0 where
  pub page : String
  pub page_size : String
  pub status : String
  pub channel : String
  pub batch_id : String
  pub from_date : String
  pub to_date : String

-- The body of GetByBatchID.
pub record BatchView : Type 0 where
  pub batch_id : Uuid
  pub count : ℕ
  pub notifications : List Notification

unfoldable pub batch_view : Uuid → Result (List Notification) → Result BatchView
batch_view id (ok ns) = ok (record { batch_id = id; count = length ns; notifications = ns })
batch_view id (err e) = err e
batch_view id panics = panics

module _ (u : UuidText) where
  -- List, the filter; a time is parsed by `time.Parse(time.RFC3339, ...)`.
  unfoldable pub filter_of : (String → Option Time) → ListQuery → NotificationFilter
  unfolding int_param
  filter_of parse_time q = record {
    page = int_param q.page (pos 1);
    page_size = int_param q.page_size (pos 20);
    status = text_param q.status;
    channel = text_param q.channel;
    batch_id = parsed_param u.parse q.batch_id;
    from_date = parsed_param parse_time q.from_date;
    to_date = parsed_param parse_time q.to_date;
  }

  -- NotificationHandler.List
  unfoldable pub handle_list :
      (String → Option Time)
      → Option Error
      → Option Error
      → ListQuery
      → Rows
      → Rows
      → Handled PaginatedResult
  unfolding filter_of answer list_notifications
  handle_list parse_time count_fails select_fails q counted rows =
      answer 200 (list_notifications count_fails select_fails (filter_of parse_time q) counted rows)

  -- NotificationHandler.GetByID
  unfoldable pub handle_get : Option Error → String → Rows → Handled Notification
  unfolding answer get_notification
  handle_get fault text rows = elim (u.parse text) [
    | none ↦ invalid_id
    | some id ↦ answer 200 (get_notification fault id rows)
  ]

  -- NotificationHandler.GetByBatchID
  unfoldable pub handle_get_batch : Option Error → String → Rows → Handled BatchView
  unfolding answer get_batch batch_view
  handle_get_batch fault text rows = elim (u.parse text) [
    | none ↦ invalid_batch_id
    | some id ↦ answer 200 (batch_view id (get_batch fault id rows))
  ]

  cancelled_by :
      Option Error
      → Option Error
      → Time
      → Option Uuid
      → Rows
      → List StatusEvent
      → Handled (Unit {0}) × Rows × List StatusEvent
  unfolding answer
  cancelled_by fault exists_fault now none rows events = (invalid_id, rows, events)
  cancelled_by fault exists_fault now (some id) rows events =
      let (reply, rows', events') = cancel_notification u fault exists_fault now id rows events in
      (answer 200 reply, rows', events')

  -- NotificationHandler.Cancel
  unfoldable pub handle_cancel :
      Option Error
      → Option Error
      → Time
      → String
      → Rows
      → List StatusEvent
      → Handled (Unit {0}) × Rows × List StatusEvent
  unfolding cancelled_by
  handle_cancel fault exists_fault now text rows events =
      cancelled_by fault exists_fault now (u.parse text) rows events

  cancelled_batch : Option Error → Time → Option Uuid → Rows → Handled ℕ × Rows
  unfolding answer
  cancelled_batch fault now none rows = (invalid_batch_id, rows)
  cancelled_batch fault now (some id) rows =
      let (reply, rows') = cancel_notifications fault now id rows in (answer 200 reply, rows')

  -- NotificationHandler.CancelBatch; the body is the number of rows.
  unfoldable pub handle_cancel_batch : Option Error → Time → String → Rows → Handled ℕ × Rows
  unfolding cancelled_batch
  handle_cancel_batch fault now text rows = cancelled_batch fault now (u.parse text) rows

  -- NotificationHandler.Create
  unfoldable pub handle_create :
      Engine
      → CreateOutside
      → Option CreateNotificationRequest
      → Store
      → Handled Notification × Store
  unfolding answer
  handle_create engine o none st = (invalid_body, st)
  handle_create engine o (some req) st =
      let (reply, st') = create_notification u engine o req st in
      if str_eq req.recipient ""
      then (wrote (refusal 400 (sentinel_text empty_recipient)), st)
      else (answer 202 reply, st')

  -- NotificationHandler.CreateBatch
  unfoldable pub handle_create_batch :
      IntakeOutside
      → Option (List CreateNotificationRequest)
      → Rows
      → Queues
      → Handled BatchResult × Rows × Queues
  unfolding answer
  handle_create_batch o none rows q = (invalid_body, rows, q)
  handle_create_batch o (some []) rows q =
      (wrote (refusal 400 "notifications array is required"), rows, q)
  handle_create_batch o (some (req ∷ reqs)) rows q =
      let (reply, rows', q') = create_notifications u o (req ∷ reqs) rows q in
      (answer 202 reply, rows', q')
