-- ===== src/Queue/Depth.antt =====
-- The length of a queue of internal/adapter/queue under the calls of its clients.
use event_driven_notificatio.Prelude.{
  ℕ, suc, ◌≤◌, ◌≡◌, ◌≢◌, String, Option, none, some, [], ◌∷◌, length, arith, refl, Bool-cases, inl,
  inr, str_eq, eq_iff, ap,
}
use event_driven_notificatio.Domain.Errors.{Error, ok, panics}
use event_driven_notificatio.Queue.{
  Queues, QueueMessage, ZSet, precedes, insert, zrem, zadd, enqueue, queue_key, dequeue,
  dequeue_script, read_reply, acknowledge, remove_found, find_id, processing_key, calc_score,
}
use event_driven_notificatio.Queue.Handoff.{dequeue_hands_over, dequeue-ne-err}

length-insert : (s : ℕ) (m : QueueMessage) (z : ZSet) → length (insert s m z) ≡ suc (length z)
unfolding insert
length-insert s m [] = refl
length-insert s m ((t, x) ∷ z) = elim (Bool-cases (precedes s m t x)) [
  | inl y ↦ rw y refl
  | inr k ↦ rw k (ap suc (length-insert s m z))
]

length-zrem : (m : QueueMessage) (z : ZSet) → length (zrem m z) ≤ length z
unfolding zrem
length-zrem m [] = omega arith
length-zrem m ((t, x) ∷ z) = ground (arith, length-zrem m z)

length-zadd : (s : ℕ) (m : QueueMessage) (z : ZSet) → length (zadd s m z) ≤ suc (length z)
unfolding zadd
length-zadd s m z = omega (arith, length-insert s m (zrem m z), length-zrem m z)

-- An Enqueue makes no queue longer by more than one message.
pub enqueue-length :
    (failure : Option Error) (now : ℕ) (msg : QueueMessage) (q : Queues) (k : String)
    → length ((enqueue failure now msg q).1.waiting k) ≤ suc (length (q.waiting k))
unfolding enqueue
enqueue-length (some e) now msg q k = omega arith
enqueue-length none now msg q k = elim (Bool-cases (str_eq k (queue_key msg.channel))) [
  | inl y ↦ rw y (
      rw ((eq_iff k (queue_key msg.channel)).0 y)
        (length-zadd (calc_score msg.priority now) msg (q.waiting (queue_key msg.channel))))
  | inr n ↦ rw n (omega arith)
]

dequeue_empty :
    (channel : String) (q : Queues)
    → q.waiting (queue_key channel) ≡ []
    → dequeue none channel q ≡ (ok none, q)
unfolding dequeue
dequeue_empty channel q e = rw (e, dequeue_script) refl

-- A Dequeue that gets no message has found its queue empty and left it so, if its script runs.
pub dequeue_nothing :
    (failure : Option Error) (channel : String) (q : Queues)
    → failure ≡ none
    → (dequeue failure channel q).0 ≡ ok none
    → (length (q.waiting (queue_key channel)) ≡ 0)
      × (length ((dequeue failure channel q).1.waiting (queue_key channel)) ≡ 0)
dequeue_nothing (some f) channel q n = cc
dequeue_nothing none channel q n = go (q.waiting (queue_key channel)) refl
  where
    go :
        (z : ZSet)
        → q.waiting (queue_key channel) ≡ z
        → (dequeue none channel q).0 ≡ ok none
        → (length (q.waiting (queue_key channel)) ≡ 0)
          × (length ((dequeue none channel q).1.waiting (queue_key channel)) ≡ 0)
    go [] e h = (rw e refl, rw (dequeue_empty channel q e) (rw e refl))
    go ((s, m) ∷ z) e h = cc ((dequeue_hands_over channel s m z q e).0)

pub dequeue-ne-panics :
    (failure : Option Error) (channel : String) (q : Queues)
    → (dequeue failure channel q).0 ≢ panics
unfolding dequeue
dequeue-ne-panics (some f) channel q h = cc
dequeue-ne-panics none channel q h =
    go
      ((dequeue_script (queue_key channel) (processing_key channel) (q.waiting (queue_key channel))
        q).0)
      h
  where
    go : (r : Option QueueMessage) → read_reply r none ≢ panics
    go none h = cc
    go (some m) h = cc

-- A Dequeue that gets a message makes its queue shorter by one.
pub dequeue_something :
    (failure : Option Error) (channel : String) (q : Queues) (m : QueueMessage)
    → (dequeue failure channel q).0 ≡ ok (some m)
    → suc (length ((dequeue failure channel q).1.waiting (queue_key channel)))
      ≡ length (q.waiting (queue_key channel))
dequeue_something (some f) channel q m h = cc ((dequeue-ne-err none channel q).1 f)
dequeue_something none channel q m h = go (q.waiting (queue_key channel)) refl h
  where
    go :
        (z : ZSet)
        → q.waiting (queue_key channel) ≡ z
        → (dequeue none channel q).0 ≡ ok (some m)
        → suc (length ((dequeue none channel q).1.waiting (queue_key channel)))
          ≡ length (q.waiting (queue_key channel))
    go [] e h = cc (dequeue_empty channel q e)
    go ((s, x) ∷ z) e h =
        rw e (ap (λ (l : ZSet). suc (length l)) (dequeue_hands_over channel s x z q e).1)

pub acknowledge-waiting :
    (f g : Option Error) (channel id : String) (q : Queues)
    → (acknowledge f g channel id q).1.waiting ≡ q.waiting
unfolding acknowledge
acknowledge-waiting (some e) g channel id q = refl
acknowledge-waiting none g channel id q = go g (find_id id (q.in_process (processing_key channel)))
  where
    go :
        (g : Option Error) (o : Option QueueMessage)
        → (remove_found g (processing_key channel) o q).1.waiting ≡ q.waiting
    go g none = refl
    go (some e) (some m) = refl
    go none (some m) = refl
