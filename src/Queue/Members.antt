-- ===== src/Queue/Members.antt =====
-- The sorted sets of internal/adapter/queue as sets of members: the equality of messages, and
-- what insertion and removal keep.
use event_driven_notificatio.Prelude.{
  ℕ, ◌≡◌, ◌↔◌, refl, true, false, [], ◌∷◌, All, arith, eq_iff, ◌≤◌, Bool-cases, inl, inr, sym, ◌∙◌,
  ap,
}
use mathlib.Core.Bool.{false≢true}
use event_driven_notificatio.Queue.{QueueMessage, same_message, ZSet, precedes, insert, zrem, zadd}

pub same_message_iff : (a b : QueueMessage) → (same_message a b ≡ true) ↔ (a ≡ b)
same_message_iff a b = ground (
  arith,
  eq_iff a.notification_id b.notification_id,
  eq_iff a.channel b.channel,
  eq_iff a.trace_parent b.trace_parent,
)

pub same_message_symm : (a b : QueueMessage) → same_message a b ≡ false → same_message b a ≡ false
same_message_symm a b h = elim (Bool-cases (same_message b a)) [
  | inl y ↦
      absurd (false≢true (sym h ∙ (same_message_iff a b).1 (sym ((same_message_iff b a).0 y))))
  | inr n ↦ n
]

pub same_message_refl : (a : QueueMessage) → same_message a a ≡ true
same_message_refl a = (same_message_iff a a).1 refl

-- No member of the set is the message.
abbrev pub Absent : QueueMessage → ZSet → Type 0
Absent m = All (λ e. same_message e.1 m ≡ false)

-- No message is a member twice.
abbrev pub IsDistinct : ZSet → Type 0
IsDistinct [] = Unit
IsDistinct (e ∷ z) = Absent e.1 z × IsDistinct z

-- The scores do not fall.
abbrev pub IsSorted : ZSet → Type 0
IsSorted [] = Unit
IsSorted (e ∷ z) = All (λ x. e.0 ≤ x.0) z × IsSorted z

module _ (P : ℕ × QueueMessage → Type 0) where
  pub insert-All : (s : ℕ) (m : QueueMessage) (z : ZSet) → P (s, m) → All P z → All P (insert s m z)
  unfolding insert
  insert-All s m [] p h = (p, tt)
  insert-All s m ((t, x) ∷ z) p h = elim (Bool-cases (precedes s m t x)) [
    | inl y ↦ rw y (p, h)
    | inr n ↦ rw n (h.0, insert-All s m z p h.1)
  ]

  pub zrem-All : (m : QueueMessage) (z : ZSet) → All P z → All P (zrem m z)
  unfolding zrem
  zrem-All m [] h = tt
  zrem-All m ((t, x) ∷ z) h = elim (Bool-cases (same_message x m)) [
    | inl y ↦ rw y (zrem-All m z h.1)
    | inr n ↦ rw n (h.0, zrem-All m z h.1)
  ]

pub Absent-zrem : (m : QueueMessage) (z : ZSet) → Absent m (zrem m z)
unfolding zrem
Absent-zrem m [] = tt
Absent-zrem m ((t, x) ∷ z) = elim (Bool-cases (same_message x m)) [
  | inl y ↦ rw y (Absent-zrem m z)
  | inr n ↦ rw n (n, Absent-zrem m z)
]

pub zrem-Absent : (m : QueueMessage) (z : ZSet) → Absent m z → zrem m z ≡ z
unfolding zrem
zrem-Absent m [] h = refl
zrem-Absent m ((t, x) ∷ z) h = rw h.0 (ap (λ (l : ZSet). (t, x) ∷ l) (zrem-Absent m z h.1))

pub zrem-IsDistinct : (m : QueueMessage) (z : ZSet) → IsDistinct z → IsDistinct (zrem m z)
unfolding zrem
zrem-IsDistinct m [] d = tt
zrem-IsDistinct m ((t, x) ∷ z) d = elim (Bool-cases (same_message x m)) [
  | inl y ↦ rw y (zrem-IsDistinct m z d.1)
  | inr n ↦ rw n (zrem-All (λ e. same_message e.1 x ≡ false) m z d.0, zrem-IsDistinct m z d.1)
]

pub insert-IsDistinct :
    (s : ℕ) (m : QueueMessage) (z : ZSet) → Absent m z → IsDistinct z → IsDistinct (insert s m z)
unfolding insert
insert-IsDistinct s m [] a d = (tt, tt)
insert-IsDistinct s m ((t, x) ∷ z) a d = elim (Bool-cases (precedes s m t x)) [
  | inl y ↦ rw y (a, d)
  | inr n ↦ rw n (
    insert-All (λ e. same_message e.1 x ≡ false) s m z (same_message_symm x m a.0) d.0,
    insert-IsDistinct s m z a.1 d.1,
  )
]

pub zadd-IsDistinct : (s : ℕ) (m : QueueMessage) (z : ZSet) → IsDistinct z → IsDistinct (zadd s m z)
unfolding zadd
zadd-IsDistinct s m z d = insert-IsDistinct s m (zrem m z) (Absent-zrem m z) (zrem-IsDistinct m z d)

pub zrem-IsSorted : (m : QueueMessage) (z : ZSet) → IsSorted z → IsSorted (zrem m z)
unfolding zrem
zrem-IsSorted m [] d = tt
zrem-IsSorted m ((t, x) ∷ z) d = elim (Bool-cases (same_message x m)) [
  | inl y ↦ rw y (zrem-IsSorted m z d.1)
  | inr n ↦ rw n (zrem-All (λ e. t ≤ e.0) m z d.0, zrem-IsSorted m z d.1)
]

All-le_mono : (s t : ℕ) (z : ZSet) → s ≤ t → All (λ x. t ≤ x.0) z → All (λ x. s ≤ x.0) z
All-le_mono s t [] h a = tt
All-le_mono s t (e ∷ z) h a = (omega arith, All-le_mono s t z h a.1)

precedes-le : (s t : ℕ) (m x : QueueMessage) → precedes s m t x ≡ true → s ≤ t
unfolding precedes
precedes-le s t m x h = ground arith

not_precedes-le : (s t : ℕ) (m x : QueueMessage) → precedes s m t x ≡ false → t ≤ s
unfolding precedes
not_precedes-le s t m x h = ground arith

pub insert-IsSorted : (s : ℕ) (m : QueueMessage) (z : ZSet) → IsSorted z → IsSorted (insert s m z)
unfolding insert
insert-IsSorted s m [] d = (tt, tt)
insert-IsSorted s m ((t, x) ∷ z) d = elim (Bool-cases (precedes s m t x)) [
  | inl y ↦ let l = precedes-le s t m x y in rw y ((l, All-le_mono s t z l d.0), d)
  | inr n ↦
      rw n
        (insert-All (λ e. t ≤ e.0) s m z (not_precedes-le s t m x n) d.0, insert-IsSorted s m z d.1)
]

pub zadd-IsSorted : (s : ℕ) (m : QueueMessage) (z : ZSet) → IsSorted z → IsSorted (zadd s m z)
unfolding zadd
zadd-IsSorted s m z d = insert-IsSorted s m (zrem m z) (zrem-IsSorted m z d)
