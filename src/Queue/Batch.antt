-- ===== src/Queue/Batch.antt =====
-- RedisPublisher.EnqueueBatch of internal/adapter/queue/publisher.go: every message of the batch
-- waits.
use mathlib.Core.Bool.{false≢true}
use text.Mathlib.TextPositions.{eq_refl}
use event_driven_notificatio.Prelude.{
  Bool, ℕ, suc, ◌≡◌, refl, sym, ap, ◌∙◌, true, false, ◌||◌, none, List, [], ◌∷◌, All, str_eq,
  Bool-cases, inl, inr, eq_iff,
}
use event_driven_notificatio.Queue.{
  QueueMessage, same_message, ZSet, insert, zrem, zadd, precedes, Queues, queue_key, calc_score,
  enqueue_batch, add_message, add_messages,
}
use event_driven_notificatio.Queue.Members.{same_message_iff}
use event_driven_notificatio.Queue.Contents.{member, member-insert}

or_right : (b : Bool) {c : Bool} → c ≡ true → (b || c) ≡ true
or_right true h = refl
or_right false h = h

or_keeps : (b c d : Bool) → (c ≡ true → d ≡ true) → (b || c) ≡ true → (b || d) ≡ true
or_keeps true c d f h = refl
or_keeps false c d f h = f h

-- A member stays one when a message is inserted or another is removed.
insert_keeps :
    (s : ℕ) (x m : QueueMessage) (z : ZSet) → member m z ≡ true → member m (insert s x z) ≡ true
unfolding insert
insert_keeps s x m [] h = absurd (false≢true h)
insert_keeps s x m ((t, y) ∷ z) h = elim (Bool-cases (precedes s x t y)) [
  | inl p ↦ rw p (or_right (same_message x m) h)
  | inr k ↦ rw k (or_keeps (same_message y m) _ _ (insert_keeps s x m z) h)
]

zrem_keeps :
    (x m : QueueMessage) (z : ZSet)
    → same_message x m ≡ false
    → member m z ≡ true
    → member m (zrem x z) ≡ true
unfolding zrem
zrem_keeps x m [] d h = h
zrem_keeps x m ((t, y) ∷ z) d h = elim (Bool-cases (same_message y x)) [
  | inl p ↦
      let other = ap (λ a. same_message a m) ((same_message_iff y x).0 p) ∙ d in
      rw p (zrem_keeps x m z d (ap (λ b. b || member m z) (sym other) ∙ h))
  | inr k ↦ rw k (or_keeps (same_message y m) _ _ (zrem_keeps x m z d) h)
]

zadd_keeps :
    (s : ℕ) (x m : QueueMessage) (z : ZSet) → member m z ≡ true → member m (zadd s x z) ≡ true
unfolding zadd
zadd_keeps s x m z h = elim (Bool-cases (same_message x m)) [
  | inl p ↦
      ap (λ a. member a (insert s x (zrem x z))) (sym ((same_message_iff x m).0 p))
      ∙ member-insert s x (zrem x z)
  | inr k ↦ insert_keeps s x m (zrem x z) (zrem_keeps x m z k h)
]

-- The message waits on its channel.
abbrev pub Waits : Queues → QueueMessage → Type 0
Waits q m = member m (q.waiting (queue_key m.channel)) ≡ true

add_message-Waits : (t : ℕ) (x : QueueMessage) (q : Queues) → Waits (add_message t x q) x
unfolding add_message zadd
add_message-Waits t x q = rw (eq_refl (queue_key x.channel)) (member-insert _ x _)

add_message_keeps :
    (t : ℕ) (x m : QueueMessage) (q : Queues) → Waits q m → Waits (add_message t x q) m
unfolding add_message
add_message_keeps t x m q h =
    elim (Bool-cases (str_eq (queue_key m.channel) (queue_key x.channel))) [
      | inl y ↦ rw y (
          zadd_keeps (calc_score x.priority t) x m _
            (ap (λ k. member m (q.waiting k)) (sym ((eq_iff _ _).0 y)) ∙ h))
      | inr k ↦ rw k h
    ]

add_messages_keep :
    (clock : ℕ → ℕ) (i : ℕ) (ms : List QueueMessage) (m : QueueMessage) (q : Queues)
    → Waits q m
    → Waits (add_messages clock i ms q) m
unfolding add_messages
add_messages_keep clock i [] m q h = h
add_messages_keep clock i (x ∷ ms) m q h =
    add_messages_keep clock (suc i) ms m _ (add_message_keeps (clock i) x m q h)

add_messages-Waits :
    (clock : ℕ → ℕ) (i : ℕ) (ms : List QueueMessage) (q : Queues)
    → All (Waits (add_messages clock i ms q)) ms
unfolding add_messages
add_messages-Waits clock i [] q = tt
add_messages-Waits clock i (m ∷ ms) q = (
  add_messages_keep clock (suc i) ms m _ (add_message-Waits (clock i) m q),
  add_messages-Waits clock (suc i) ms _,
)

-- After an EnqueueBatch that succeeds every message of the batch waits on its channel, and what
-- waited before still does.
pub enqueue_batch-Waits :
    (clock : ℕ → ℕ) (ms : List QueueMessage) (q : Queues)
    → let q' = (enqueue_batch none clock ms q).1 in
      All (Waits q') ms × ((m : QueueMessage) → Waits q m → Waits q' m)
unfolding enqueue_batch
enqueue_batch-Waits clock ms q =
    (add_messages-Waits clock 0 ms q, λ m h. add_messages_keep clock 0 ms m q h)
