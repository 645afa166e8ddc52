-- ===== src/System/Safe.antt =====
-- Whatever the processes of the program do one after the other, none crashes.
use event_driven_notificatio.Prelude.{
  ◌≡◌, refl, String, Option, none, some, List, [], ◌∷◌, true, arith,
}
use event_driven_notificatio.Domain.Errors.{Result, ok, err, panics}
use event_driven_notificatio.Domain.Notification.{Channel, is_valid}
use event_driven_notificatio.RateLimit.{Limiter}
use event_driven_notificatio.Queue.{QueueMessage, dequeue}
use event_driven_notificatio.Queue.Depth.{dequeue-ne-panics}
use event_driven_notificatio.Postgres.Notifications.History.{
  step, step-IsTable, claims_scheduled, claims_retry,
}
use event_driven_notificatio.Service.World.{UuidText, World, SendRequest, Reply}
use event_driven_notificatio.Service.Templates.{Engine}
use event_driven_notificatio.Service.Scheduler.{scheduler_poll, retry_poll}
use event_driven_notificatio.Service.Create.Keeps.{create_notification-IsTable}
use event_driven_notificatio.Service.Intake.Keeps.{
  create_notifications-IsTable, cancel_notification-IsTable, cancel_notifications-IsTable,
}
use event_driven_notificatio.Service.Delivery.{
  DeliveryConfig, DeliveryService, new_breakers, new_delivery_service, process,
}
use event_driven_notificatio.Service.Delivery.Frame.{returns, process_safe}
use event_driven_notificatio.Worker.{RoundOutside, acknowledged, processed, dequeued, round}
use event_driven_notificatio.Worker.Drain.{IsReady}
use event_driven_notificatio.Worker.Sends.{store_of}
use event_driven_notificatio.System.{
  Step, creates, creates_batch, cancels, cancels_batch, polls_scheduled, polls_retry, works,
  survived, start, act, run,
}

-- There is a world, and it is ready.
abbrev pub Survives : Option World → Type 0
Survives none = ⊥
Survives (some w) = IsReady w

module _ (u : UuidText) (s : DeliveryService) (provider : SendRequest → Reply)
    (channel : Channel) where
  processed-Survives :
      (o : RoundOutside) (id : String) (r : Result (Unit {0}) × World)
      → returns r.0 ≡ true
      → IsReady r.1
      → Survives (survived (processed u s provider channel o id r))
  unfolding processed acknowledged
  processed-Survives o id (ok x, w) c ready = record {
    table = ready.table;
    breakers = ready.breakers;
  }
  processed-Survives o id (err e, w) c ready = record {
    table = ready.table;
    breakers = ready.breakers;
  }
  processed-Survives o id (panics, w) c ready = cc

  dequeued-Survives :
      (o : RoundOutside) (w : World) (reply : Result (Option QueueMessage))
      → IsReady w
      → (dequeue o.dequeue_fails channel w.queues).0 ≡ reply
      → Survives (
          survived (
            dequeued u s provider channel o reply
              (record w { queues = (dequeue o.dequeue_fails channel w.queues).1 })))
  unfolding dequeued
  dequeued-Survives o w (err e) ready h = record { table = ready.table; breakers = ready.breakers }
  dequeued-Survives o w panics ready h =
      absurd (dequeue-ne-panics o.dequeue_fails channel w.queues h)
  dequeued-Survives o w (ok none) ready h = record {
    table = ready.table;
    breakers = ready.breakers;
  }
  dequeued-Survives o w (ok (some msg)) ready h =
      let w1 : World = record w { queues = (dequeue o.dequeue_fails channel w.queues).1 } in
      let id = msg.notification_id in
      let (c, t, b, _) = process_safe u s provider o.delivery id w1 ready.table ready.breakers in
      processed-Survives o id (process u s provider o.delivery id w1) c
        (record { table = t; breakers = b })

  round-Survives :
      (o : RoundOutside) (w : World)
      → IsReady w
      → Survives (survived (round u s provider channel o w))
  unfolding round
  round-Survives o w ready = dequeued-Survives o w _ ready refl

module _ (u : UuidText) (engine : Engine) (provider : SendRequest → Reply) (limiter : Limiter)
    (cfg : DeliveryConfig) where
  act-Survives :
      (x : Step) (w : World) → IsReady w → Survives (act u engine provider limiter cfg x w)
  unfolding act
  act-Survives (creates o req) w ready = record {
    table = create_notification-IsTable u engine o req (store_of w) ready.table;
    breakers = ready.breakers;
  }
  act-Survives (creates_batch o reqs) w ready = record {
    table = create_notifications-IsTable u o reqs w.rows w.queues ready.table;
    breakers = ready.breakers;
  }
  act-Survives (cancels fault exists_fault now id) w ready = record {
    table = cancel_notification-IsTable u fault exists_fault now id w.rows w.events ready.table;
    breakers = ready.breakers;
  }
  act-Survives (cancels_batch fault now batch) w ready = record {
    table = cancel_notifications-IsTable fault now batch w.rows ready.table;
    breakers = ready.breakers;
  }
  act-Survives (polls_scheduled o) w ready = record {
    table =
        let k =
          step-IsTable w.rows (claims_scheduled o.query_fails o.locked o.now 100) ready.table in
        unfold scheduler_poll step in k;
    breakers = ready.breakers;
  }
  act-Survives (polls_retry o) w ready = record {
    table =
        let k = step-IsTable w.rows (claims_retry o.query_fails o.locked o.now 100) ready.table in
        unfold retry_poll step in k;
    breakers = ready.breakers;
  }
  act-Survives (works channel o) w ready = round-Survives u _ provider channel o w ready

  run-Survives :
      (xs : List Step) (w : World) → IsReady w → Survives (run u engine provider limiter cfg xs w)
  unfolding run
  run-Survives [] w ready = ready
  run-Survives (x ∷ xs) w ready =
      go (act u engine provider limiter cfg x w) (act-Survives x w ready) (run-Survives xs)
    where
      go :
          (r : Option World)
          → Survives r
          → ((w' : World) → IsReady w' → Survives (run u engine provider limiter cfg xs w'))
          → Survives (elim r [ none ↦ none | some w' ↦ run u engine provider limiter cfg xs w' ])
      go none h ih = h
      go (some w') h ih = ih w' h

  start-IsReady : IsReady (start u engine provider limiter cfg)
  unfolding start new_delivery_service new_breakers is_valid
  start-IsReady = record { table = tt; breakers = λ c v. ground arith }

  -- Whatever calls, polls and ticks of workers follow the start on an empty database, failed ones
  -- included, in whatever order, each run to its end before the next: no worker panics, no two
  -- notifications have the same ID or the same idempotency key, every channel is valid, and every
  -- valid channel has its breaker.
  pub run-start-Survives :
      (xs : List Step)
      → Survives (run u engine provider limiter cfg xs (start u engine provider limiter cfg))
  run-start-Survives xs = run-Survives xs _ start-IsReady
