-- ===== src/Service/Create/Keeps.antt =====
-- What Create of internal/service/notification.go leaves of the notifications table.
use event_driven_notificatio.Prelude.{Option, none, some, ltb, Bool-cases, inl, inr}
use event_driven_notificatio.Domain.Errors.{Error, Sentinel, Result, ok, err, panics}
use event_driven_notificatio.Domain.Notification.{Notification, Time, queued, is_valid}
use event_driven_notificatio.Postgres.Notifications.{Rows, create}
use event_driven_notificatio.Postgres.Notifications.Table.{IsTable}
use event_driven_notificatio.Postgres.Notifications.History.{
  step, step-IsTable, creates, updates_status,
}
use event_driven_notificatio.Service.World.{UuidText}
use event_driven_notificatio.Service.Templates.{Engine}
use event_driven_notificatio.Service.Intake.{CreateNotificationRequest}
use event_driven_notificatio.Service.Create.{
  Store, CreateOutside, announce, send_off, inserted, scheduled_at, looked_up, checked, filled,
  create_notification,
}

pub create-IsTable :
    (f : Option Error) (n : Notification) (rows : Rows) → IsTable rows → IsTable (create f n rows).1
create-IsTable f n rows t = let k = step-IsTable rows (creates f n) t in unfold step in k

module _ (u : UuidText) (engine : Engine) (o : CreateOutside) where
  send_off-IsTable :
      (n : Notification) (st : Store) → IsTable st.rows → IsTable (send_off u engine o n st).1.rows
  unfolding send_off announce
  send_off-IsTable n st t =
      let k = step-IsTable st.rows (updates_status o.status_fails o.updated_at n.id queued) t in
      unfold step in k

  inserted-IsTable :
      (at : Option Time) (n : Notification) (r : Result (Unit {0}) × Rows) (st : Store)
      → IsTable r.1
      → IsTable st.rows
      → IsTable (inserted u engine o at n r st).1.rows
  unfolding inserted announce
  inserted-IsTable at n (err e, rows) st k t = k
  inserted-IsTable at n (panics, rows) st k t = t
  inserted-IsTable none n (ok _, rows) st k t = send_off-IsTable n (record st { rows = rows }) k
  inserted-IsTable (some at) n (ok _, rows) st k t = k

  scheduled_at-IsTable :
      (at : Option Time) (n : Notification) (st : Store)
      → IsTable st.rows
      → IsTable (scheduled_at u engine o at n st).1.rows
  unfolding scheduled_at
  scheduled_at-IsTable none n st t =
      inserted-IsTable none n _ st (create-IsTable o.insert_fails n st.rows t) t
  scheduled_at-IsTable (some at) n st t = elim (Bool-cases (ltb at o.scheduling_at)) [
    | inl y ↦ rw y t
    | inr k ↦ rw k (inserted-IsTable (some at) _ _ st (create-IsTable o.insert_fails _ st.rows t) t)
  ]

  looked_up-IsTable :
      (req : CreateNotificationRequest) (r : Result (Option Notification)) (st : Store)
      → IsTable st.rows
      → IsTable (looked_up u engine o req r st).1.rows
  unfolding looked_up
  looked_up-IsTable req (err e) st t = t
  looked_up-IsTable req panics st t = t
  looked_up-IsTable req (ok (some n)) st t = t
  looked_up-IsTable req (ok none) st t = scheduled_at-IsTable req.scheduled_at _ st t

  checked-IsTable :
      (req : CreateNotificationRequest) (r : Option Sentinel) (st : Store)
      → IsTable st.rows
      → IsTable (checked u engine o req r st).1.rows
  unfolding checked
  checked-IsTable req (some s) st t = t
  checked-IsTable req none st t = looked_up-IsTable req _ st t

  filled-IsTable :
      (r : Result CreateNotificationRequest) (st : Store)
      → IsTable st.rows
      → IsTable (filled u engine o r st).1.rows
  unfolding filled
  filled-IsTable (err e) st t = t
  filled-IsTable panics st t = t
  filled-IsTable (ok req) st t = checked-IsTable req _ st t

  -- Create keeps the constraints of the table.
  pub create_notification-IsTable :
      (req : CreateNotificationRequest) (st : Store)
      → IsTable st.rows
      → IsTable (create_notification u engine o req st).1.rows
  unfolding create_notification
  create_notification-IsTable req st t = elim (Bool-cases (is_valid req.channel)) [
    | inl y ↦ rw y (filled-IsTable _ st t)
    | inr k ↦ rw k t
  ]
