-- ===== src/Worker.antt =====
-- cmd/worker/main.go: one round of the loop of runWorker on a channel, and rounds one after the other.
-- Other workers' rounds may stand between them.
pub mod Drain
pub mod Delivers
pub mod Sends
mod Tests
use event_driven_notificatio.Prelude.{String, Option, none, some, List, [], ◌∷◌}
use event_driven_notificatio.Domain.Errors.{Error, Result, ok, err, panics}
use event_driven_notificatio.Domain.Notification.{Channel}
use event_driven_notificatio.Queue.{QueueMessage, dequeue, acknowledge}
use event_driven_notificatio.Service.World.{UuidText, World, SendRequest, Reply, Outside}
use event_driven_notificatio.Service.Delivery.{DeliveryService, process}

-- What one round finds: the failures of the queue's calls, and what Process finds.
pub record RoundOutside : Type 0 where
  pub dequeue_fails : Option Error
  pub smembers_fails : Option Error
  pub srem_fails : Option Error
  pub delivery : Outside

-- How a round ends: with the next tick, or with the panic that ends the program.
pub data Round : Type 0 where
  idle : Round
  handled : Result (Unit {0}) → Round
  crashed : Round

module _ (u : UuidText) (s : DeliveryService) (provider : SendRequest → Reply)
    (channel : Channel) where
  -- `_ = consumer.Acknowledge(ctx, channel, msg.NotificationID)`
  unfoldable pub acknowledged : RoundOutside → String → World → World
  acknowledged o id w = record w {
    queues = (acknowledge o.smembers_fails o.srem_fails channel id w.queues).1;
  }

  -- the round from the result of Process, whose error is only logged
  unfoldable pub processed : RoundOutside → String → Result (Unit {0}) × World → Round × World
  unfolding acknowledged
  processed o id (panics, w) = (crashed, w)
  processed o id (ok x, w) = (handled (ok x), acknowledged o id w)
  processed o id (err e, w) = (handled (err e), acknowledged o id w)

  -- the round from the result of Dequeue
  unfoldable pub dequeued : RoundOutside → Result (Option QueueMessage) → World → Round × World
  unfolding processed
  dequeued o (err e) w = (idle, w)
  dequeued o panics w = (crashed, w)
  dequeued o (ok none) w = (idle, w)
  dequeued o (ok (some msg)) w =
      processed o msg.notification_id (process u s provider o.delivery msg.notification_id w)

  -- A tick of the loop.
  unfoldable pub round : RoundOutside → World → Round × World
  unfolding dequeued
  round o w =
      let (reply, q) = dequeue o.dequeue_fails channel w.queues in
      dequeued o reply (record w { queues = q })

  -- The rounds after one: none after a crash.
  unfoldable pub after : Round × World → List Round × World → List Round × World
  after (crashed, w) rest = (crashed ∷ [], w)
  after (idle, w) (rs, w') = (idle ∷ rs, w')
  after (handled r, w) (rs, w') = (handled r ∷ rs, w')

  -- The rounds of a worker.
  unfoldable pub rounds : List RoundOutside → World → List Round × World
  unfolding after round
  rounds [] w = ([], w)
  rounds (o ∷ os) w = let (r, w') = round o w in after (r, w') (rounds os w')
