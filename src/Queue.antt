-- ===== src/Queue.antt =====
-- internal/adapter/queue (publisher.go, consumer.go) and internal/port/queue.go: the priority
-- queues on Redis sorted sets, and the sets of messages in processing. A member is its message:
-- the publisher's JSON is the same text exactly for equal messages. `time.Now()` and the client's
-- failures are arguments.
pub mod Score
pub mod Members
pub mod Order
pub mod Contents
pub mod Handoff
pub mod History
pub mod Batch
pub mod Depth
pub mod Cycle
mod Tests
use Prim.Native.String.{◌++◌ as append, compare as compare_text}
use text.Mathlib.Text.{is_lt}
use event_driven_notificatio.Prelude.{
  ℕ, zero, suc, ◌+◌, ◌*◌, ◌^◌, String, Bool, true, false, ◌&&◌, ◌||◌, Option, none, some, List, [],
  ◌∷◌, ◌++◌, length, take, ltb, ◌==◌, str_eq, if◌then◌else◌,
}
use event_driven_notificatio.Domain.Errors.{Error, Result, ok, err, wrapped}

-- port.QueueMessage
pub record QueueMessage : Type 0 where
  pub notification_id : String
  pub channel : String
  pub priority : ℕ
  pub trace_parent : String

-- Whether two messages have the same JSON.
abbrev pub same_message : QueueMessage → QueueMessage → Bool
same_message a b =
    str_eq a.notification_id b.notification_id
    && (str_eq a.channel b.channel
        && (a.priority == b.priority && str_eq a.trace_parent b.trace_parent))

-- A sorted set: scores and members, the lowest score first. Redis orders members of one score by
-- their bytes: the JSON begins with the ID.
abbrev pub ZSet : Type 0
ZSet = List (ℕ × QueueMessage)

pub precedes : ℕ → QueueMessage → ℕ → QueueMessage → Bool
precedes s m t x = ltb s t || (s == t && is_lt (compare_text m.notification_id x.notification_id))

pub insert : ℕ → QueueMessage → ZSet → ZSet
insert s m [] = (s, m) ∷ []
insert s m ((t, x) ∷ z) =
    let rest = insert s m z in if precedes s m t x then (s, m) ∷ (t, x) ∷ z else (t, x) ∷ rest

-- ZREM
pub zrem : QueueMessage → ZSet → ZSet
zrem m [] = []
zrem m ((t, x) ∷ z) = let rest = zrem m z in if same_message x m then rest else (t, x) ∷ rest

-- ZADD: a member that is there gets the new score.
pub zadd : ℕ → QueueMessage → ZSet → ZSet
unfolding insert zrem
zadd s m z = insert s m (zrem m z)

-- SADD and SREM
pub sadd : QueueMessage → List QueueMessage → List QueueMessage
sadd m [] = m ∷ []
sadd m (x ∷ l) = let rest = sadd m l in if same_message x m then x ∷ l else x ∷ rest

pub srem : QueueMessage → List QueueMessage → List QueueMessage
srem m [] = []
srem m (x ∷ l) = let rest = srem m l in if same_message x m then rest else x ∷ rest

-- The keys of Redis that hold queues and processing sets.
pub record Queues : Type 0 where
  pub waiting : String → ZSet
  pub in_process : String → List QueueMessage

abbrev pub put {ℓ} : {A : Type ℓ} → (String → A) → String → A → String → A
put keys k v j = if str_eq j k then v else keys j

abbrev pub queue_key : String → String
queue_key channel = append "queue:notifications:" channel

abbrev pub processing_key : String → String
processing_key channel = append "processing:notifications:" channel

-- calcScore: priority * 1e13 + milliseconds. Below 2 ^ 53 a float64 holds the sum exactly.
unfoldable pub calc_score : ℕ → ℕ → ℕ
calc_score priority now_ms = priority * 10 ^ 13 + now_ms

pub add_message : ℕ → QueueMessage → Queues → Queues
unfolding zadd calc_score
add_message now_ms msg q =
    let key = queue_key msg.channel in
    record q {
      waiting = put q.waiting key (zadd (calc_score msg.priority now_ms) msg (q.waiting key));
    }

-- RedisPublisher.Enqueue
unfoldable pub enqueue : Option Error → ℕ → QueueMessage → Queues → Result (Unit {0}) × Queues
unfolding add_message
enqueue none now_ms msg q = (ok tt, add_message now_ms msg q)
enqueue (some e) now_ms msg q = (err e, q)

-- The commands of the pipeline; each message is scored at a clock reading of its own.
pub add_messages : (ℕ → ℕ) → ℕ → List QueueMessage → Queues → Queues
unfolding add_message
add_messages clock i [] q = q
add_messages clock i (msg ∷ msgs) q = add_messages clock (suc i) msgs (add_message (clock i) msg q)

-- RedisPublisher.EnqueueBatch. When the pipeline fails, the first few of its commands may have
-- taken effect.
unfoldable pub enqueue_batch :
    Option (Error × ℕ) → (ℕ → ℕ) → List QueueMessage → Queues → Result (Unit {0}) × Queues
unfolding add_messages
enqueue_batch none clock msgs q = (ok tt, add_messages clock 0 msgs q)
enqueue_batch (some (e, done)) clock msgs q = (err e, add_messages clock 0 (take done msgs) q)

-- dequeueScript: pop the member with the lowest score into the processing set.
dequeue_script : String → String → ZSet → Queues → Option QueueMessage × Queues
unfolding sadd
dequeue_script from to [] q = (none, q)
dequeue_script from to ((s, m) ∷ z) q = (
  some m,
  record q {
    waiting = put q.waiting from z;
    in_process = put q.in_process to (sadd m (q.in_process to));
  },
)

-- What `Run(...).Result()` returns: a value, nil for none, and an error. A failed call has no
-- value.
run_script : Option Error → String → String → Queues → (Option QueueMessage × Option Error) × Queues
unfolding dequeue_script
run_script none from to q =
    let (m, q') = dequeue_script from to (q.waiting from) q in ((m, none), q')
run_script (some e) from to q = ((none, some e), q)

-- The tests of Dequeue on the script's reply: `redis.Nil` comes with no value.
read_reply : Option QueueMessage → Option Error → Result (Option QueueMessage)
read_reply none failure = ok none
read_reply (some m) (some e) = err (wrapped "dequeue script: " e "")
read_reply (some m) none = ok (some m)

-- RedisConsumer.Dequeue
unfoldable pub dequeue : Option Error → String → Queues → Result (Option QueueMessage) × Queues
unfolding run_script read_reply
dequeue failure channel q =
    let (reply, q') = run_script failure (queue_key channel) (processing_key channel) q in
    (read_reply reply.0 reply.1, q')

unfoldable pub find_id : String → List QueueMessage → Option QueueMessage
find_id id [] = none
find_id id (m ∷ l) = let rest = find_id id l in if str_eq m.notification_id id then some m else rest

-- The end of the loop of Acknowledge: what it found is removed.
pub remove_found : Option Error → String → Option QueueMessage → Queues → Result (Unit {0}) × Queues
unfolding srem
remove_found failure key none q = (ok tt, q)
remove_found (some e) key (some m) q = (err e, q)
remove_found none key (some m) q =
    (ok tt, record q { in_process = put q.in_process key (srem m (q.in_process key)) })

-- RedisConsumer.Acknowledge; the failures are those of SMEMBERS and SREM.
unfoldable pub acknowledge :
    Option Error → Option Error → String → String → Queues → Result (Unit {0}) × Queues
unfolding remove_found find_id
acknowledge (some e) srem_failure channel id q = (err e, q)
acknowledge none srem_failure channel id q =
    let key = processing_key channel in
    remove_found srem_failure key (find_id id (q.in_process key)) q

-- RedisConsumer.QueueDepth
unfoldable pub queue_depth : String → Queues → ℕ
queue_depth channel q = length (q.waiting (queue_key channel))
