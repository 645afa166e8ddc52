-- ===== src/System.antt =====
-- The whole program: the API's calls (cmd/api/main.go), the two pollers and the workers
-- (cmd/worker/main.go) on one database and one Redis. A step is one call, one poll or one tick of a
-- worker, from its beginning to its end; the steps of all processes stand in one order.
pub mod Safe
mod Tests
use event_driven_notificatio.Prelude.{◌≡◌, String, Option, none, some, List, [], ◌∷◌}
use event_driven_notificatio.Domain.Errors.{Error}
use event_driven_notificatio.Domain.Notification.{Uuid, Time, Channel}
use event_driven_notificatio.RateLimit.{Limiter, empty}
use event_driven_notificatio.Service.World.{UuidText, World, SendRequest, Reply}
use event_driven_notificatio.Service.Templates.{Engine}
use event_driven_notificatio.Service.Intake.{
  CreateNotificationRequest, IntakeOutside, create_notifications, cancel_notification,
  cancel_notifications,
}
use event_driven_notificatio.Service.Create.{CreateOutside, create_notification}
use event_driven_notificatio.Service.Scheduler.{PollOutside, scheduler_poll, retry_poll}
use event_driven_notificatio.Service.Delivery.{
  DeliveryConfig, DeliveryService, new_delivery_service,
}
use event_driven_notificatio.Worker.{RoundOutside, Round, idle, handled, crashed, round}
use event_driven_notificatio.Worker.Sends.{store_of, with_store}

pub data Step : Type 0 where
  creates : CreateOutside → CreateNotificationRequest → Step
  creates_batch : IntakeOutside → List CreateNotificationRequest → Step
  cancels : Option Error → Option Error → Time → Uuid → Step
  cancels_batch : Option Error → Time → Uuid → Step
  polls_scheduled : PollOutside → Step
  polls_retry : PollOutside → Step
  works : Channel → RoundOutside → Step

-- The world after a tick; none when the worker's process has panicked.
abbrev pub survived : Round × World → Option World
survived (idle, w) = some w
survived (handled r, w) = some w
survived (crashed, w) = none

module _ (u : UuidText) (engine : Engine) (provider : SendRequest → Reply) (limiter : Limiter)
    (cfg : DeliveryConfig) where
  -- the start on an empty database and an empty Redis
  unfoldable pub start : World
  unfolding new_delivery_service
  start = record {
    rows = [];
    attempts = [];
    dead_letters = [];
    queues = record { waiting = λ k. []; in_process = λ k. [] };
    windows = λ k. empty;
    breakers = (new_delivery_service limiter cfg).1;
    metrics = [];
    events = [];
  }

  abbrev pub delivery_service : DeliveryService
  delivery_service = (new_delivery_service limiter cfg).0

  unfoldable pub act : Step → World → Option World
  unfolding create_notification create_notifications cancel_notification cancel_notifications
      scheduler_poll retry_poll round
  act (creates o req) w = some (with_store (create_notification u engine o req (store_of w)).1 w)
  act (creates_batch o reqs) w =
      let (reply, rows', queues') = create_notifications u o reqs w.rows w.queues in
      some (record w { rows = rows'; queues = queues' })
  act (cancels fault exists_fault now id) w =
      let (reply, rows', events') =
        cancel_notification u fault exists_fault now id w.rows w.events in
      some (record w { rows = rows'; events = events' })
  act (cancels_batch fault now batch) w =
      some (record w { rows = (cancel_notifications fault now batch w.rows).1 })
  act (polls_scheduled o) w =
      let (rows', queues') = scheduler_poll u o w.rows w.queues in
      some (record w { rows = rows'; queues = queues' })
  act (polls_retry o) w =
      let (rows', queues') = retry_poll u o w.rows w.queues in
      some (record w { rows = rows'; queues = queues' })
  act (works channel o) w = survived (round u delivery_service provider channel o w)

  -- Steps in the order in which they happen.
  unfoldable pub run : List Step → World → Option World
  unfolding act
  run [] w = some w
  run (x ∷ xs) w = elim (act x w) [ none ↦ none | some w' ↦ run xs w' ]
