-- ===== src/Event/Follow/Entries.antt =====
-- The other clients of internal/adapter/event/hub.go when one comes, leaves or has a message written.
use mathlib.Core.List.{append-nil, append_assoc}
use mathlib.Core.Path.{subst}
use event_driven_notificatio.Prelude.{
  ℕ, ◌≡◌, refl, sym, ap, ◌∙◌, false, some, List, [], ◌∷◌, ◌++◌, map, ◌==◌, arith, Bool-cases, inl,
  inr,
}
use event_driven_notificatio.Service.World.{StatusEvent}
use event_driven_notificatio.Event.{Client, take_out, sent_first, pump_one}
use event_driven_notificatio.Event.Clients.{LacksClient, AreLive, pumped}
use event_driven_notificatio.Event.Follow.{
  find_client, got, Follows, Follows-refl, LacksClient-find,
}

pub tail_Follows :
    (id : ℕ) (c : Client) (cs : List Client)
    → LacksClient c.id cs
    → Follows [] (find_client id (c ∷ cs)) (find_client id cs)
unfolding find_client
tail_Follows id c cs n = elim (Bool-cases (c.id == id)) [
  | inl y ↦
      let e : c.id ≡ id = ground arith in
      rw y (rw (LacksClient-find id cs (subst (λ j. LacksClient j cs) e n)) tt)
  | inr k ↦ rw k (Follows-refl (find_client id cs))
]

pub cons_Follows :
    (id : ℕ) (c : Client) (cs cs' : List Client)
    → Follows [] (find_client id cs) (find_client id cs')
    → Follows [] (find_client id (c ∷ cs)) (find_client id (c ∷ cs'))
unfolding find_client
cons_Follows id c cs cs' f = elim (Bool-cases (c.id == id)) [
  | inl y ↦ rw y (Follows-refl (some c))
  | inr k ↦ rw k f
]

pub take_out-Follows :
    (next id j : ℕ) (cs : List Client)
    → AreLive next cs
    → Follows [] (find_client id cs) (find_client id (take_out j cs).1)
unfolding take_out
take_out-Follows next id j [] a = unfold find_client in refl
take_out-Follows next id j (c ∷ cs) (l, n, a) = elim (Bool-cases (c.id == j)) [
  | inl y ↦ rw y (tail_Follows id c cs n)
  | inr k ↦ rw k (cons_Follows id c _ _ (take_out-Follows next id j cs a))
]

pub find-append :
    (id : ℕ) (cs : List Client) (c : Client)
    → (c.id == id) ≡ false
    → find_client id (cs ++ c ∷ []) ≡ find_client id cs
unfolding find_client
find-append id [] c k = rw k refl
find-append id (x ∷ cs) c k = elim (Bool-cases (x.id == id)) [
  | inl y ↦ rw y refl
  | inr n ↦ rw n (find-append id cs c k)
]

pub sent_first-Follows :
    (ms : List StatusEvent) (c : Client)
    → c.send ≡ ms
    → Follows [] (some c) (some (sent_first ms c)) × ((sent_first ms c).id ≡ c.id)
unfolding sent_first
sent_first-Follows [] c e = (Follows-refl (some c), refl)
sent_first-Follows (m ∷ ms) c e = (
  (
    refl,
    append_assoc c.written (m ∷ []) ms
        ∙ (ap (λ l. c.written ++ l) (sym e) ∙ sym (append-nil (got c))),
  ),
  refl,
)

pub pumped-Follows :
    (j : ℕ) (c : Client) → Follows [] (some c) (some (pumped j c)) × ((pumped j c).id ≡ c.id)
unfolding pump_one
pumped-Follows j c = elim (Bool-cases (c.id == j)) [
  | inl y ↦ rw y (sent_first-Follows c.send c refl)
  | inr k ↦ rw k (Follows-refl (some c), refl)
]

pub pump-Follows :
    (id j : ℕ) (cs : List Client)
    → Follows [] (find_client id cs) (find_client id (map (pumped j) cs))
unfolding find_client
pump-Follows id j [] = refl
pump-Follows id j (c ∷ cs) =
    let (f, e) = pumped-Follows j c in
    elim (Bool-cases (c.id == id)) [
      | inl y ↦ rw y (rw e (rw y f))
      | inr k ↦ rw k (rw e (rw k (pump-Follows id j cs)))
    ]
