-- ===== src/Queue/Order.antt =====
-- The order in which RedisConsumer.Dequeue of internal/adapter/queue hands messages out.
use event_driven_notificatio.Prelude.{
  ℕ, ◌^◌, ◌≤◌, ◌<◌, String, ◌≡◌, refl, ◌⊎◌, none, some, List, [], ◌∷◌, All, arith, inl, inr,
}
use text.Mathlib.TextPositions.{eq_refl}
use event_driven_notificatio.Domain.Errors.{ok}
use event_driven_notificatio.Queue.{
  QueueMessage, ZSet, Queues, queue_key, processing_key, calc_score, dequeue_script, dequeue,
}
use event_driven_notificatio.Queue.Score.{calc_score_order}
use event_driven_notificatio.Queue.Members.{Absent}
use event_driven_notificatio.Queue.History.{
  Call, run, no_queues, InEra, IsRanked, IsQueue, run-IsValid, no_queues-IsValid,
}

-- The message of rank (p, t) goes before the member: its priority is higher, or the same and its
-- time no later.
abbrev pub GoesBefore : ℕ → ℕ → ℕ × QueueMessage → Type 0
GoesBefore p t e =
    (u : ℕ) × (e.0 ≡ calc_score e.1.priority u)
    × ((p < e.1.priority) ⊎ ((p ≡ e.1.priority) × (t ≤ u)))

ranked_behind :
    (p t s : ℕ) (z : ZSet)
    → t < 10 ^ 13
    → s ≡ calc_score p t
    → All (λ e. s ≤ e.0) z
    → All IsRanked z
    → All (GoesBefore p t) z
ranked_behind p t s [] h e l r = tt
ranked_behind p t s (x ∷ z) h e l r =
    let (u, k, eq) = r.0 in
    (
      (u, eq, ((calc_score_order p t x.1.priority u h k).0.0 (cc_le e eq l.0))),
      ranked_behind p t s z h e l.1 r.1,
    )
  where
    cc_le : {a b c d : ℕ} → a ≡ b → c ≡ d → a ≤ c → b ≤ d
    cc_le p q h = omega arith

-- What a successful Dequeue of a message says of the queue that it leaves.
abbrev pub IsFirst : QueueMessage → String → Queues → Queues → Type 0
IsFirst m key q q' =
    (t : ℕ) × (q.waiting key ≡ (calc_score m.priority t, m) ∷ q'.waiting key)
    × All (GoesBefore m.priority t) (q'.waiting key)
    × Absent m (q'.waiting key)

script-IsFirst :
    (key to : String) (q : Queues) (z : ZSet)
    → q.waiting key ≡ z
    → IsQueue z
    → let (reply, q') = dequeue_script key to z q in
      ((reply ≡ none) × (q' ≡ q) × (q.waiting key ≡ []))
      ⊎ ((m : QueueMessage) × (reply ≡ some m) × IsFirst m key q q')
unfolding dequeue_script
script-IsFirst key to q [] e v = inl (refl, refl, e)
script-IsFirst key to q ((s, m) ∷ z) e v =
    let (t, h, eq) = v.ranked.0 in
    inr (
      m,
      refl,
      rw (eq_refl key)
          (t, rw (← eq) e, ranked_behind m.priority t s z h eq v.sorted.0 v.ranked.1, v.distinct.0),
    )

-- After any calls (failed ones included) at times below 10 ^ 13 milliseconds, a Dequeue on a
-- channel whose script runs either finds the queue empty, returns no message and changes nothing;
-- or returns the first member of the queue, which goes before all that are left: each of those has
-- a lower priority, or the same priority and a time no earlier. No copy of the message is left in
-- the queue.
pub dequeue-IsFirst :
    (cs : List Call) (channel : String)
    → All InEra cs
    → let q = run no_queues cs in
      let (reply, q') = dequeue none channel q in
      ((reply ≡ ok none) × (q' ≡ q) × (q.waiting (queue_key channel) ≡ []))
      ⊎ ((m : QueueMessage) × (reply ≡ ok (some m)) × IsFirst m (queue_key channel) q q')
unfolding dequeue
dequeue-IsFirst cs channel h =
    let q = run no_queues cs in
    let v = run-IsValid no_queues cs h no_queues-IsValid in
    elim (script-IsFirst (queue_key channel) (processing_key channel) q _ refl
      (v (queue_key channel))) [
        | inl (e, same, none_left) ↦ inl (rw e refl, same, none_left)
        | inr (m, e, first) ↦ inr (m, rw e refl, first)
      ]
