-- ===== src/Queue/Cycle.antt =====
-- A message that goes from its queue through the processing set and is acknowledged.
use text.Mathlib.TextPositions.{eq_refl}
use event_driven_notificatio.Prelude.{ℕ, String, ◌≡◌, refl, none, some, List, [], ◌∷◌, arith}
use event_driven_notificatio.Queue.{
  QueueMessage, ZSet, sadd, srem, find_id, Queues, queue_key, processing_key, dequeue_script,
  dequeue, acknowledge, enqueue, add_message, zadd, insert, zrem, calc_score,
}
use event_driven_notificatio.Queue.Members.{same_message_refl}

find_id-sadd :
    (m : QueueMessage) (l : List QueueMessage)
    → find_id m.notification_id l ≡ none
    → find_id m.notification_id (sadd m l) ≡ some m
unfolding find_id sadd
find_id-sadd m [] h = rw (eq_refl m.notification_id) refl
find_id-sadd m (x ∷ l) h = ground (arith, find_id-sadd m l)

srem-sadd :
    (m : QueueMessage) (l : List QueueMessage)
    → find_id m.notification_id l ≡ none
    → srem m (sadd m l) ≡ l
unfolding find_id sadd srem
srem-sadd m [] h = rw (same_message_refl m) refl
srem-sadd m (x ∷ l) h = ground (arith, srem-sadd m l)

-- Dequeue and Acknowledge of a message whose ID is in no processing set of the channel yet.
pub acknowledge-dequeue :
    (channel : String) (s : ℕ) (m : QueueMessage) (z : ZSet) (q : Queues)
    → q.waiting (queue_key channel) ≡ (s, m) ∷ z
    → find_id m.notification_id (q.in_process (processing_key channel)) ≡ none
    → let q' = (acknowledge none none channel m.notification_id (dequeue none channel q).1).1 in
      (q'.waiting (queue_key channel) ≡ z)
      × (q'.in_process (processing_key channel) ≡ q.in_process (processing_key channel))
unfolding dequeue acknowledge
acknowledge-dequeue channel s m z q e h =
    rw (e, dequeue_script)
      (rw (eq_refl (processing_key channel)) (
        rw (find_id-sadd m (q.in_process (processing_key channel)) h) (
          rw (eq_refl (queue_key channel)) refl,
          rw (eq_refl (processing_key channel))
              (srem-sadd m (q.in_process (processing_key channel)) h),
        )))

-- A message in an empty queue stands first; the processing sets stay.
pub first_waits :
    (t : ℕ) (m : QueueMessage) (q : Queues)
    → q.waiting (queue_key m.channel) ≡ []
    → let q' = (enqueue none t m q).1 in
      (q'.waiting (queue_key m.channel) ≡ (calc_score m.priority t, m) ∷ [])
      × (q'.in_process ≡ q.in_process)
unfolding enqueue add_message zadd insert zrem
first_waits t m q e = (rw (eq_refl (queue_key m.channel)) (rw (e, zrem) refl), refl)
