-- ===== src/Queue/Contents.antt =====
-- What RedisPublisher.Enqueue of internal/adapter/queue/publisher.go does to the queue's contents.
use text.Mathlib.TextPositions.{eq_refl}
use event_driven_notificatio.Prelude.{
  ℕ, suc, ◌≡◌, refl, ap, ◌∙◌, Bool, true, false, ◌||◌, none, [], ◌∷◌, length, String, arith,
  if◌then◌else◌, Bool-cases, inl, inr, ◌≢◌, eq_iff,
}
use event_driven_notificatio.Queue.{
  QueueMessage, same_message, ZSet, insert, zrem, zadd, Queues, queue_key, calc_score, enqueue,
  queue_depth,
}
use event_driven_notificatio.Queue.Members.{
  same_message_iff, same_message_refl, Absent, IsDistinct, zrem-Absent,
}

-- Whether the message is a member.
abbrev pub member : QueueMessage → ZSet → Bool
member m [] = false
member m (e ∷ z) = same_message e.1 m || member m z

length-insert : (s : ℕ) (m : QueueMessage) (z : ZSet) → length (insert s m z) ≡ suc (length z)
unfolding insert
length-insert s m [] = refl
length-insert s m ((t, x) ∷ z) = ground (arith, length-insert s m z)

Absent-same : (m x : QueueMessage) (z : ZSet) → same_message x m ≡ true → Absent x z → Absent m z
Absent-same m x z h a = rw (← ((same_message_iff x m).0 h)) a

length-zrem :
    (m : QueueMessage) (z : ZSet)
    → IsDistinct z
    → suc (length (zrem m z)) ≡ (if member m z then length z else suc (length z))
unfolding zrem
length-zrem m [] d = refl
length-zrem m ((t, x) ∷ z) d = elim (Bool-cases (same_message x m)) [
  | inl y ↦ rw y (ap (λ (l : ZSet). suc (length l)) (zrem-Absent m z (Absent-same m x z y d.0)))
  | inr n ↦ rw n (ground (arith, length-zrem m z d.1))
]

pub member-insert : (s : ℕ) (m : QueueMessage) (z : ZSet) → member m (insert s m z) ≡ true
unfolding insert
member-insert s m [] = rw (same_message_refl m)
member-insert s m ((t, x) ∷ z) = ground (arith, member-insert s m z, same_message_refl m)

-- After an Enqueue that succeeds the message waits on its channel, at one place only: the depth
-- of a queue with distinct members grows by one if the message was not waiting, and else stays
-- the same. Every other channel's queue is as it was.
pub enqueue_once :
    (now_ms : ℕ) (m : QueueMessage) (q : Queues) (other : String)
    → IsDistinct (q.waiting (queue_key m.channel))
    → let q' = (enqueue none now_ms m q).1 in
      (member m (q'.waiting (queue_key m.channel)) ≡ true)
      × (queue_depth m.channel q' ≡ (
          if member m (q.waiting (queue_key m.channel))
          then queue_depth m.channel q
          else suc (queue_depth m.channel q)))
      × (other ≢ queue_key m.channel → q'.waiting other ≡ q.waiting other)
unfolding enqueue queue_depth zadd
enqueue_once now_ms m q other d =
    let key = queue_key m.channel in
    rw (eq_refl key) (
      member-insert _ m _,
      length-insert (calc_score m.priority now_ms) m (zrem m (q.waiting key))
          ∙ length-zrem m (q.waiting key) d,
      λ h. ground (arith, eq_iff other key),
    )
