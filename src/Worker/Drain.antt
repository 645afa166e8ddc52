-- ===== src/Worker/Drain.antt =====
-- The rounds of a worker (cmd/worker/main.go) never crash, and empty its queue.
use event_driven_notificatio.Prelude.{
  ℕ, suc, ◌+◌, ◌≤◌, ◌<◌, ◌⊎◌, inl, inr, ◌≡◌, refl, String, Bool, true, false, Option, none, some,
  List, [], ◌∷◌, length, All, arith,
}
use event_driven_notificatio.Domain.Errors.{Result, ok, err, panics}
use event_driven_notificatio.Domain.Notification.{Channel}
use event_driven_notificatio.Postgres.Notifications.Table.{IsTable}
use event_driven_notificatio.Queue.{QueueMessage, queue_key, queue_depth, dequeue}
use event_driven_notificatio.Queue.Handoff.{dequeue-ne-err}
use event_driven_notificatio.Queue.Depth.{
  dequeue_nothing, dequeue_something, dequeue-ne-panics, acknowledge-waiting,
}
use event_driven_notificatio.Service.World.{UuidText, World, SendRequest, Reply}
use event_driven_notificatio.Service.Delivery.{DeliveryService, process}
use event_driven_notificatio.Service.Delivery.Steps.{HasBreakers}
use event_driven_notificatio.Service.Delivery.Frame.{returns, process_safe}
use event_driven_notificatio.Service.Delivery.PutBacks.{put_backs, process-IsNoLonger}
use event_driven_notificatio.Worker.{
  RoundOutside, Round, idle, handled, crashed, acknowledged, processed, dequeued, round, after,
  rounds,
}

-- A table and a breaker for every valid channel.
pub record IsReady (w : World) : Type 0 where
  pub table : IsTable w.rows
  pub breakers : HasBreakers w.breakers

-- The messages that the rounds may have put back.
abbrev pub all_put_backs : List Round → ℕ
all_put_backs [] = 0
all_put_backs (idle ∷ rs) = all_put_backs rs
all_put_backs (handled r ∷ rs) = put_backs r + all_put_backs rs
all_put_backs (crashed ∷ rs) = all_put_backs rs

abbrev pub has_crash : List Round → Bool
has_crash [] = false
has_crash (idle ∷ rs) = has_crash rs
has_crash (handled r ∷ rs) = has_crash rs
has_crash (crashed ∷ rs) = true

module _ (u : UuidText) (s : DeliveryService) (provider : SendRequest → Reply)
    (channel : Channel) where
  abbrev depth : World → ℕ
  depth w = length (w.queues.waiting (queue_key channel))

  -- What a round does to the queue of length `before`.
  abbrev Progress : ℕ → Round × World → Type 0
  Progress before (idle, w') = IsReady w' × (before ≡ 0) × (depth w' ≡ 0)
  Progress before (handled r, w') =
      IsReady w' × (0 < before) × (suc (depth w') ≤ before + put_backs r)
  Progress before (crashed, w') = ⊥

  acknowledged-depth :
      (o : RoundOutside) (id : String) (w : World)
      → depth (acknowledged u s provider channel o id w) ≡ depth w
  unfolding acknowledged
  acknowledged-depth o id w =
      rw (acknowledge-waiting o.smembers_fails o.srem_fails channel id w.queues)

  processed-Progress :
      (o : RoundOutside) (id : String) (before : ℕ) (r : Result (Unit {0}) × World)
      → returns r.0 ≡ true
      → IsReady r.1
      → 0 < before
      → suc (depth r.1) ≤ before + put_backs r.0
      → Progress before (processed u s provider channel o id r)
  unfolding processed
  processed-Progress o id before (ok x, w) c ready p l = (
    unfold acknowledged in record { table = ready.table; breakers = ready.breakers },
    p,
    omega (arith, acknowledged-depth o id w),
  )
  processed-Progress o id before (err e, w) c ready p l = (
    unfold acknowledged in record { table = ready.table; breakers = ready.breakers },
    p,
    omega (arith, acknowledged-depth o id w),
  )
  processed-Progress o id before (panics, w) c ready p l = cc

  dequeued-Progress :
      (o : RoundOutside) (w : World) (reply : Result (Option QueueMessage))
      → o.dequeue_fails ≡ none
      → IsReady w
      → (dequeue o.dequeue_fails channel w.queues).0 ≡ reply
      → Progress (depth w) (
          dequeued u s provider channel o reply
            (record w { queues = (dequeue o.dequeue_fails channel w.queues).1 }))
  unfolding dequeued
  dequeued-Progress o w (err e) f ready h =
      absurd ((dequeue-ne-err o.dequeue_fails channel w.queues).0 e h)
  dequeued-Progress o w panics f ready h =
      absurd (dequeue-ne-panics o.dequeue_fails channel w.queues h)
  dequeued-Progress o w (ok none) f ready h =
      let (x, y) = dequeue_nothing o.dequeue_fails channel w.queues f h in
      (record { table = ready.table; breakers = ready.breakers }, x, y)
  dequeued-Progress o w (ok (some msg)) f ready h =
      let w1 : World = record w { queues = (dequeue o.dequeue_fails channel w.queues).1 } in
      let id = msg.notification_id in
      let (c, t, b, _) = process_safe u s provider o.delivery id w1 ready.table ready.breakers in
      let n = process-IsNoLonger u s provider o.delivery id w1 (queue_key channel) in
      let m = dequeue_something o.dequeue_fails channel w.queues msg h in
      processed-Progress o id (depth w) (process u s provider o.delivery id w1) c
        (record { table = t; breakers = b }) (omega (arith, m)) (omega (arith, n, m))

  round-Progress :
      (o : RoundOutside) (w : World)
      → o.dequeue_fails ≡ none
      → IsReady w
      → Progress (depth w) (round u s provider channel o w)
  unfolding round
  round-Progress o w f ready = dequeued-Progress o w _ f ready refl

  abbrev ReadsQueue : List RoundOutside → Type 0
  ReadsQueue = All (λ (o : RoundOutside). o.dequeue_fails ≡ none)

  -- What rounds do, `ticks` of them.
  abbrev Drained : ℕ → ℕ → List Round × World → Type 0
  Drained ticks before r =
      (has_crash r.0 ≡ false)
      × (before ≡ 0 → depth r.1 ≡ 0)
      × ((depth r.1 ≡ 0) ⊎ (depth r.1 + ticks ≤ before + all_put_backs r.0))

  after-Drained :
      (ticks before : ℕ) (r : Round × World) (rest : List Round × World)
      → Progress before r
      → Drained ticks (depth r.1) rest
      → Drained (suc ticks) before (after u s provider channel r rest)
  unfolding after
  after-Drained ticks before (idle, w) (rs, w') p d = (d.0, (λ z. d.1 p.2), inl (d.1 p.2))
  after-Drained ticks before (handled r, w) (rs, w') p (c, z, inl e) =
      (c, (λ y. absurd (omega (arith, p.1))), inl e)
  after-Drained ticks before (handled r, w) (rs, w') p (c, z, inr l) =
      (c, (λ y. absurd (omega (arith, p.1))), inr (omega (arith, p.2)))
  after-Drained ticks before (crashed, w) (rs, w') p d = absurd p

  Progress-IsReady : (before : ℕ) (r : Round × World) → Progress before r → IsReady r.1
  Progress-IsReady before (idle, w) p = p.0
  Progress-IsReady before (handled r, w) p = p.0
  Progress-IsReady before (crashed, w) p = absurd p

  rounds-Drained :
      (os : List RoundOutside) (w : World)
      → ReadsQueue os
      → IsReady w
      → Drained (length os) (depth w) (rounds u s provider channel os w)
  unfolding rounds
  rounds-Drained [] w f ready = (refl, (λ z. z), inr (omega arith))
  rounds-Drained (o ∷ os) w f ready =
      let p = round-Progress o w f.0 ready in
      let r = round u s provider channel o w in
      after-Drained (length os) (depth w) r (rounds u s provider channel os r.1) p
        (rounds-Drained os r.1 f.1 (Progress-IsReady (depth w) r p))

  -- A worker alone on its channel, with a table, a breaker for every valid channel, and a queue whose
  -- Dequeues do not fail, never crashes; and its rounds leave the queue empty, or have made it shorter
  -- by one message each, not counting the messages that the rate limiter put back.
  pub rounds_drain :
      (os : List RoundOutside) (w : World)
      → IsReady w
      → All (λ (o : RoundOutside). o.dequeue_fails ≡ none) os
      → let (rs, w') = rounds u s provider channel os w in
        (has_crash rs ≡ false)
        × ((queue_depth channel w'.queues ≡ 0)
            ⊎ (queue_depth channel w'.queues + length os
                ≤ queue_depth channel w.queues + all_put_backs rs))
  unfolding queue_depth
  rounds_drain os w ready f = let (c, _, d) = rounds-Drained os w f ready in (c, d)
