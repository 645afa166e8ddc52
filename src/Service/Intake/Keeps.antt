-- ===== src/Service/Intake/Keeps.antt =====
-- What CreateBatch, Cancel and CancelBatch of internal/service/notification.go leave of the table.
use event_driven_notificatio.Prelude.{Option, List, [], ◌∷◌, length, ltb, Bool-cases, inl, inr}
use event_driven_notificatio.Domain.Errors.{Error, Result, ok, err, panics}
use event_driven_notificatio.Domain.Notification.{Uuid, Time, Notification}
use event_driven_notificatio.Domain.Batch.{max_batch_size}
use event_driven_notificatio.Queue.{Queues}
use event_driven_notificatio.Postgres.Notifications.{Rows, create_batch}
use event_driven_notificatio.Postgres.Notifications.Table.{IsTable}
use event_driven_notificatio.Postgres.Notifications.History.{
  step, step-IsTable, creates_batch, cancels, cancels_batch,
}
use event_driven_notificatio.Service.World.{UuidText, StatusEvent}
use event_driven_notificatio.Service.Intake.{
  CreateNotificationRequest, Intake, IntakeOutside, stored, store, create_notifications,
  cancel_notification, cancel_notifications,
}

module _ (u : UuidText) (o : IntakeOutside) where
  stored-IsTable :
      (r : Result (Unit {0})) (a : Intake) (rows : Rows) (q : Queues)
      → IsTable rows
      → IsTable (stored u o r a rows q).1
  unfolding stored
  stored-IsTable (err e) a rows q t = t
  stored-IsTable panics a rows q t = t
  stored-IsTable (ok _) a rows q t = t

  store-IsTable :
      (ns : List Notification) (a : Intake) (rows : Rows) (q : Queues)
      → IsTable rows
      → IsTable (store u o ns a rows q).1
  unfolding store
  store-IsTable [] a rows q t = t
  store-IsTable (n ∷ ns) a rows q t =
      let k : IsTable (create_batch o.insert_fails (n ∷ ns) rows).1 =
        let j = step-IsTable rows (creates_batch o.insert_fails (n ∷ ns)) t in unfold step in j in
      stored-IsTable _ a _ q k

  pub create_notifications-IsTable :
      (reqs : List CreateNotificationRequest) (rows : Rows) (q : Queues)
      → IsTable rows
      → IsTable (create_notifications u o reqs rows q).1
  unfolding create_notifications
  create_notifications-IsTable reqs rows q t =
      elim (Bool-cases (ltb max_batch_size (length reqs))) [
        | inl y ↦ rw y t
        | inr k ↦ rw k (store-IsTable _ _ rows q t)
      ]

pub cancel_notification-IsTable :
    (u : UuidText) (fault exists_fault : Option Error) (now : Time) (id : Uuid) (rows : Rows)
    (events : List StatusEvent)
    → IsTable rows
    → IsTable (cancel_notification u fault exists_fault now id rows events).1
unfolding cancel_notification
cancel_notification-IsTable u fault exists_fault now id rows events t =
    let k = step-IsTable rows (cancels fault exists_fault now id) t in unfold step in k

pub cancel_notifications-IsTable :
    (fault : Option Error) (now : Time) (batch : Uuid) (rows : Rows)
    → IsTable rows
    → IsTable (cancel_notifications fault now batch rows).1
unfolding cancel_notifications
cancel_notifications-IsTable fault now batch rows t =
    let k = step-IsTable rows (cancels_batch fault now batch) t in unfold step in k
