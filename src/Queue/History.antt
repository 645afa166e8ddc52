-- ===== src/Queue/History.antt =====
-- The queues of internal/adapter/queue over every sequence of calls.
use event_driven_notificatio.Prelude.{
  ℕ, suc, ◌^◌, ◌<◌, String, ◌≡◌, refl, Option, none, some, List, [], ◌∷◌, All, take, str_eq,
  Bool-cases, inl, inr,
}
use event_driven_notificatio.Domain.Errors.{Error}
use event_driven_notificatio.Queue.{
  QueueMessage, ZSet, zadd, Queues, queue_key, calc_score, add_message, enqueue, add_messages,
  enqueue_batch, dequeue_script, dequeue, remove_found, acknowledge,
}
use event_driven_notificatio.Queue.Members.{
  IsDistinct, IsSorted, zadd-IsDistinct, zadd-IsSorted, insert-All, zrem-All,
}

-- The calls that publishers and consumers make, in the order in which Redis runs them.
pub data Call : Type 0 where
  enqueues : Option Error → ℕ → QueueMessage → Call
  enqueues_batch : Option (Error × ℕ) → (ℕ → ℕ) → List QueueMessage → Call
  dequeues : Option Error → String → Call
  acknowledges : Option Error → Option Error → String → String → Call

unfoldable pub step : Queues → Call → Queues
unfolding enqueue enqueue_batch dequeue acknowledge
step q (enqueues failure now_ms msg) = (enqueue failure now_ms msg q).1
step q (enqueues_batch failure clock msgs) = (enqueue_batch failure clock msgs q).1
step q (dequeues failure channel) = (dequeue failure channel q).1
step q (acknowledges f g channel id) = (acknowledge f g channel id q).1

unfoldable pub run : Queues → List Call → Queues
run q [] = q
run q (c ∷ cs) = run (step q c) cs

abbrev pub no_queues : Queues
no_queues = record { waiting = λ k. []; in_process = λ k. [] }

-- The clock reads less than 10 ^ 13 milliseconds.
abbrev pub InEra : Call → Type 0
InEra (enqueues failure now_ms msg) = now_ms < 10 ^ 13
InEra (enqueues_batch failure clock msgs) = (i : ℕ) → clock i < 10 ^ 13
InEra _ = Unit

-- A member's score is that of its priority at some time of the era.
abbrev pub IsRanked : ℕ × QueueMessage → Type 0
IsRanked e = (t : ℕ) × (t < 10 ^ 13) × (e.0 ≡ calc_score e.1.priority t)

pub record IsQueue (z : ZSet) : Type 0 where
  pub sorted : IsSorted z
  pub distinct : IsDistinct z
  pub ranked : All IsRanked z

abbrev pub IsValid : Queues → Type 0
IsValid q = (key : String) → IsQueue (q.waiting key)

zadd-IsQueue :
    (t : ℕ) (m : QueueMessage) (z : ZSet)
    → t < 10 ^ 13
    → IsQueue z
    → IsQueue (zadd (calc_score m.priority t) m z)
unfolding zadd
zadd-IsQueue t m z h v = record {
  sorted = zadd-IsSorted _ m z v.sorted;
  distinct = zadd-IsDistinct _ m z v.distinct;
  ranked = insert-All IsRanked _ m _ (t, h, refl) (zrem-All IsRanked m z v.ranked);
}

add_message-IsValid :
    (t : ℕ) (m : QueueMessage) (q : Queues) → t < 10 ^ 13 → IsValid q → IsValid (add_message t m q)
unfolding add_message
add_message-IsValid t m q h v key = elim (Bool-cases (str_eq key (queue_key m.channel))) [
  | inl y ↦ rw y (zadd-IsQueue t m _ h (v (queue_key m.channel)))
  | inr n ↦ rw n (v key)
]

add_messages-IsValid :
    (clock : ℕ → ℕ) (i : ℕ) (ms : List QueueMessage) (q : Queues)
    → ((j : ℕ) → clock j < 10 ^ 13)
    → IsValid q
    → IsValid (add_messages clock i ms q)
unfolding add_messages
add_messages-IsValid clock i [] q h v = v
add_messages-IsValid clock i (m ∷ ms) q h v =
    add_messages-IsValid clock (suc i) ms _ h (add_message-IsValid (clock i) m q (h i) v)

dequeue_script-IsValid :
    (from to : String) (z : ZSet) (q : Queues)
    → IsQueue z
    → IsValid q
    → IsValid (dequeue_script from to z q).1
unfolding dequeue_script
dequeue_script-IsValid from to [] q w v key = v key
dequeue_script-IsValid from to (e ∷ z) q w v key = elim (Bool-cases (str_eq key from)) [
  | inl y ↦ rw y (record { sorted = w.sorted.1; distinct = w.distinct.1; ranked = w.ranked.1 })
  | inr n ↦ rw n (v key)
]

remove_found-waiting :
    (g : Option Error) (key : String) (o : Option QueueMessage) (q : Queues)
    → (remove_found g key o q).1.waiting ≡ q.waiting
unfolding remove_found
remove_found-waiting g key none q = refl
remove_found-waiting none key (some m) q = refl
remove_found-waiting (some e) key (some m) q = refl

acknowledge-waiting :
    (f g : Option Error) (channel id : String) (q : Queues)
    → (acknowledge f g channel id q).1.waiting ≡ q.waiting
unfolding acknowledge
acknowledge-waiting (some e) g channel id q = refl
acknowledge-waiting none g channel id q = remove_found-waiting g _ _ q

pub step-IsValid : (q : Queues) (c : Call) → InEra c → IsValid q → IsValid (step q c)
unfolding step
step-IsValid q (enqueues none t m) h v = add_message-IsValid t m q h v
step-IsValid q (enqueues (some e) t m) h v = v
step-IsValid q (enqueues_batch none clock ms) h v = add_messages-IsValid clock 0 ms q h v
step-IsValid q (enqueues_batch (some (e, done)) clock ms) h v =
    add_messages-IsValid clock 0 (take done ms) q h v
step-IsValid q (dequeues none channel) h v =
    dequeue_script-IsValid _ _ _ q (v (queue_key channel)) v
step-IsValid q (dequeues (some e) channel) h v = v
step-IsValid q (acknowledges f g channel id) h v = rw (acknowledge-waiting f g channel id q) v

pub run-IsValid : (q : Queues) (cs : List Call) → All InEra cs → IsValid q → IsValid (run q cs)
unfolding run
run-IsValid q [] h v = v
run-IsValid q (c ∷ cs) h v = run-IsValid (step q c) cs h.1 (step-IsValid q c h.0 v)

pub no_queues-IsValid : IsValid no_queues
no_queues-IsValid key = record { sorted = tt; distinct = tt; ranked = tt }
