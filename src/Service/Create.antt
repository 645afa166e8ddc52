-- ===== src/Service/Create.antt =====
-- internal/service/notification.go: Create, of a service that has a template service.
pub mod Answers
pub mod Sends
pub mod Keeps
use event_driven_notificatio.Prelude.{
  ℕ, String, Bool, true, false, Option, none, some, List, [], ◌∷◌, ◌++◌, ltb, str_eq, if◌then◌else◌,
  ◌/◌, ◌^◌,
}
use event_driven_notificatio.Domain.Errors.{
  Error, Sentinel, sentinel, invalid_channel, template_inactive, schedule_in_past, Result, ok, err,
  panics,
}
use event_driven_notificatio.Domain.Notification.{
  Uuid, Time, is_valid, Vars, scheduled, queued, status_text, Notification, new_notification,
  priority_from_string,
}
use event_driven_notificatio.Domain.Template.{Template}
use event_driven_notificatio.Queue.{Queues, enqueue}
use event_driven_notificatio.Postgres.Notifications.{
  Rows, create, update_status, get_by_idempotency_key,
}
use event_driven_notificatio.Service.World.{UuidText, StatusEvent}
use event_driven_notificatio.Service.Scheduler.{queue_message}
use event_driven_notificatio.Service.Templates.{Engine, render}
use event_driven_notificatio.Service.Intake.{CreateNotificationRequest, validate_content}

-- What Create works on.
pub record Store : Type 0 where
  pub rows : Rows
  pub queues : Queues
  pub events : List StatusEvent

-- What one call finds outside the program; `template` answers TemplateService.GetByID.
pub record CreateOutside : Type 0 where
  pub id : Uuid
  pub created_at : Time
  pub scheduling_at : Time
  pub updated_at : Time
  pub enqueued_at : Time
  pub template : Uuid → Result Template
  pub lookup_fails : Option Error
  pub insert_fails : Option Error
  pub status_fails : Option Error
  pub queue_fails : Option Error

abbrev pub or_metadata : Option Vars → Option Vars → Option Vars
or_metadata none m = m
or_metadata (some v) m = some v

abbrev pub unless_empty : String → String → String
unless_empty s old = if str_eq s "" then old else s

module _ (u : UuidText) (engine : Engine) (o : CreateOutside) where
  -- the request with the rendered texts; the map of variables is the one that Render leaves
  pub with_texts :
      CreateNotificationRequest
      → Result (String × String) × Option Vars
      → Result CreateNotificationRequest
  with_texts req (err e, vars) = err e
  with_texts req (panics, vars) = panics
  with_texts req (ok (subject, content), vars) = ok (record req {
    content = content;
    subject = unless_empty subject req.subject;
    template_vars = vars;
  })

  pub of_template : CreateNotificationRequest → Result Template → Result CreateNotificationRequest
  unfolding with_texts
  of_template req (err e) = err e
  of_template req panics = panics
  of_template req (ok tmpl) =
      if tmpl.active
      then with_texts req (render engine tmpl req.template_vars)
      else err (sentinel template_inactive)

  -- Create, the template
  unfoldable pub filled_in :
      Option Uuid → CreateNotificationRequest → Result CreateNotificationRequest
  unfolding of_template
  filled_in none req = ok req
  filled_in (some id) req = of_template req (o.template id)

  -- Create, the new notification before its schedule
  unfoldable pub requested : CreateNotificationRequest → Notification
  requested req =
      let n =
        new_notification o.id o.created_at req.channel req.recipient req.content
          (priority_from_string req.priority) in
      record n {
        subject = req.subject;
        idempotency_key = req.idempotency_key;
        template_id = req.template_id;
        template_vars = req.template_vars;
        metadata = or_metadata req.metadata n.metadata;
      }

  -- the event at the end of Create
  unfoldable pub created_event : Notification → StatusEvent
  created_event n = record {
    notification_id = u.format n.id;
    batch_id = "";
    status = status_text n.status;
    channel = n.channel;
    timestamp = n.created_at / 10 ^ 9;
    error = "";
  }

  pub announce : Notification → Store → Result Notification × Store
  unfolding created_event
  announce n st = (ok n, record st { events = st.events ++ created_event n ∷ [] })

  -- Create, a pending notification once it is inserted
  pub send_off : Notification → Store → Result Notification × Store
  unfolding announce
  send_off n st =
      let n' : Notification = record n { status = queued } in
      let rows' = (update_status o.status_fails o.updated_at n.id queued st.rows).1 in
      let queues' =
        (enqueue o.queue_fails (o.enqueued_at / 10 ^ 6) (queue_message u n') st.queues).1 in
      announce n' (record st { rows = rows'; queues = queues' })

  -- Create, from the result of the repository's Create
  pub inserted :
      Option Time → Notification → Result (Unit {0}) × Rows → Store → Result Notification × Store
  unfolding announce send_off
  inserted at n (err e, rows') st = (err e, record st { rows = rows' })
  inserted at n (panics, rows') st = (panics, st)
  inserted none n (ok _, rows') st = send_off n (record st { rows = rows' })
  inserted (some t) n (ok _, rows') st = announce n (record st { rows = rows' })

  -- Create, the schedule
  pub scheduled_at : Option Time → Notification → Store → Result Notification × Store
  unfolding inserted
  scheduled_at none n st = inserted none n (create o.insert_fails n st.rows) st
  scheduled_at (some t) n st =
      let n' : Notification = record n { scheduled_at = some t; status = scheduled } in
      if ltb t o.scheduling_at
      then (err (sentinel schedule_in_past), st)
      else inserted (some t) n' (create o.insert_fails n' st.rows) st

  -- Create, from the idempotency check
  pub looked_up :
      CreateNotificationRequest → Result (Option Notification) → Store → Result Notification × Store
  unfolding scheduled_at requested
  looked_up req (err e) st = (err e, st)
  looked_up req panics st = (panics, st)
  looked_up req (ok (some n)) st = (ok n, st)
  looked_up req (ok none) st = scheduled_at req.scheduled_at (requested req) st

  pub keyed : CreateNotificationRequest → Option String → Rows → Result (Option Notification)
  keyed req none rows = ok none
  keyed req (some key) rows = get_by_idempotency_key o.lookup_fails key rows

  -- Create, from the check of the content
  pub checked : CreateNotificationRequest → Option Sentinel → Store → Result Notification × Store
  unfolding looked_up keyed
  checked req (some s) st = (err (sentinel s), st)
  checked req none st = looked_up req (keyed req req.idempotency_key st.rows) st

  pub filled : Result CreateNotificationRequest → Store → Result Notification × Store
  unfolding checked
  filled (err e) st = (err e, st)
  filled panics st = (panics, st)
  filled (ok req) st = checked req (validate_content req.channel req.content) st

  -- NotificationService.Create
  unfoldable pub create_notification :
      CreateNotificationRequest → Store → Result Notification × Store
  unfolding filled filled_in
  create_notification req st =
      if is_valid req.channel
      then filled (filled_in req.template_id req) st
      else (err (sentinel invalid_channel), st)
