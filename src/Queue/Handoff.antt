-- ===== src/Queue/Handoff.antt =====
-- The processing sets of internal/adapter/queue/consumer.go.
use text.Mathlib.TextPositions.{eq_refl}
use mathlib.Core.Path.{subst}
use event_driven_notificatio.Prelude.{
  ℕ, String, ◌≡◌, refl, ◌≢◌, Bool, true, false, ◌||◌, Option, none, some, List, [], ◌∷◌, str_eq,
  eq_iff, arith, Bool-cases, inl, inr,
}
use event_driven_notificatio.Domain.Errors.{Error, ok, err}
use event_driven_notificatio.Queue.{
  QueueMessage, ZSet, same_message, sadd, srem, find_id, remove_found, Queues, queue_key,
  processing_key, read_reply, dequeue_script, dequeue, acknowledge,
}
use event_driven_notificatio.Queue.Members.{same_message_iff, same_message_refl}

abbrev pub holds : QueueMessage → List QueueMessage → Bool
holds m [] = false
holds m (x ∷ l) = same_message x m || holds m l

holds-sadd : (m : QueueMessage) (l : List QueueMessage) → holds m (sadd m l) ≡ true
unfolding sadd
holds-sadd m [] = rw (same_message_refl m)
holds-sadd m (x ∷ l) = ground (arith, holds-sadd m l)

holds-srem_self : (m : QueueMessage) (l : List QueueMessage) → holds m (srem m l) ≡ false
unfolding srem
holds-srem_self m [] = refl
holds-srem_self m (x ∷ l) = ground (arith, holds-srem_self m l)

holds-srem_ne :
    (m n : QueueMessage) (l : List QueueMessage)
    → same_message m n ≡ false
    → holds n (srem m l) ≡ holds n l
unfolding srem
holds-srem_ne m n [] h = refl
holds-srem_ne m n (x ∷ l) h = elim (Bool-cases (same_message x m)) [
  | inl y ↦ rw y (rw ((same_message_iff x m).0 y) (rw h (holds-srem_ne m n l h)))
  | inr k ↦ rw k (ground (arith, holds-srem_ne m n l h))
]

find_id-id :
    (id : String) (l : List QueueMessage) (m : QueueMessage)
    → find_id id l ≡ some m
    → str_eq m.notification_id id ≡ true
unfolding find_id
find_id-id id [] m h = cc
find_id-id id (x ∷ l) m h = ground (arith, find_id-id id l m)

read_reply-ne-err : (r : Option QueueMessage) (e : Error) → read_reply r none ≢ err e
unfolding read_reply
read_reply-ne-err none e h = cc
read_reply-ne-err (some m) e h = cc

-- A Dequeue never returns an error: when the script fails, the reply's missing value is taken for
-- an empty queue, and the caller gets no message and no error, as when nothing waits.
pub dequeue-ne-err :
    (failure : Option Error) (channel : String) (q : Queues)
    → ((e : Error) → (dequeue failure channel q).0 ≢ err e)
      × ((f : Error) → dequeue (some f) channel q ≡ (ok none, q))
unfolding dequeue
dequeue-ne-err none channel q = (read_reply-ne-err _, λ f. refl)
dequeue-ne-err (some f) channel q = (λ e h. cc, λ f'. refl)

script_hands_over :
    (from to : String) (s : ℕ) (m : QueueMessage) (z : ZSet) (q : Queues)
    → let q' = (dequeue_script from to ((s, m) ∷ z) q).1 in
      (q'.waiting from ≡ z)
      × (holds m (q'.in_process to) ≡ true)
      × ((other : String) → other ≢ from → q'.waiting other ≡ q.waiting other)
unfolding dequeue_script
script_hands_over from to s m z q = (
  rw (eq_refl from) refl,
  rw (eq_refl to) (holds-sadd m (q.in_process to)),
  λ other h. ground (arith, eq_iff other from),
)

-- A Dequeue of a queue that is not empty moves the first member, and only that, from its channel's
-- queue into the channel's processing set; the other queues stay as they are.
pub dequeue_hands_over :
    (channel : String) (s : ℕ) (m : QueueMessage) (z : ZSet) (q : Queues)
    → q.waiting (queue_key channel) ≡ (s, m) ∷ z
    → let (reply, q') = dequeue none channel q in
      (reply ≡ ok (some m))
      × (q'.waiting (queue_key channel) ≡ z)
      × (holds m (q'.in_process (processing_key channel)) ≡ true)
      × ((other : String) → other ≢ queue_key channel → q'.waiting other ≡ q.waiting other)
unfolding dequeue
dequeue_hands_over channel s m z q e =
    let (a, b, c) = script_hands_over (queue_key channel) (processing_key channel) s m z q in
    rw (e, dequeue_script) (refl, a, b, c)

-- what Acknowledge leaves when its loop found `o`
removes_found :
    (key id : String) (o : Option QueueMessage) (q : Queues) (n : QueueMessage)
    → find_id id (q.in_process key) ≡ o
    → str_eq n.notification_id id ≡ false
    → let (reply, q') = remove_found none key o q in
      (reply ≡ ok tt)
      × (q'.waiting ≡ q.waiting)
      × (holds n (q'.in_process key) ≡ holds n (q.in_process key))
      × ((m : QueueMessage) → o ≡ some m → holds m (q'.in_process key) ≡ false)
unfolding remove_found
removes_found key id none q n e h = (refl, refl, refl, λ m k. cc)
removes_found key id (some x) q n e h =
    let l = q.in_process key in
    let other : same_message x n ≡ false =
      ground (arith, same_message_iff x n, find_id-id id l x) in
    rw (eq_refl key) (
      refl,
      refl,
      holds-srem_ne x n l other,
      λ m k. subst (λ (y : QueueMessage). holds y (srem x l) ≡ false) (cc) (holds-srem_self x l),
    )

-- An Acknowledge whose calls succeed takes the message that it finds under the ID out of the
-- channel's processing set, leaves every message with another ID in it, and touches no queue.
pub acknowledge_exact :
    (channel id : String) (q : Queues) (n : QueueMessage)
    → str_eq n.notification_id id ≡ false
    → let key = processing_key channel in
      let (reply, q') = acknowledge none none channel id q in
      (reply ≡ ok tt)
      × (q'.waiting ≡ q.waiting)
      × (holds n (q'.in_process key) ≡ holds n (q.in_process key))
      × ((m : QueueMessage)
          → find_id id (q.in_process key) ≡ some m
          → holds m (q'.in_process key) ≡ false)
unfolding acknowledge
acknowledge_exact channel id q n h = removes_found (processing_key channel) id _ q n refl h
