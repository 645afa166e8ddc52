-- ===== src/Event/Follow/Broadcast.antt =====
-- What a broadcast of internal/adapter/event/hub.go gives to a client.
use mathlib.Core.List.{append-nil, append_assoc}
use mathlib.Core.Path.{subst}
use event_driven_notificatio.Prelude.{
  ℕ, ◌≡◌, refl, sym, Bool, true, false, some, List, [], ◌∷◌, length, ltb, ◌==◌, arith, Bool-cases,
  inl, inr,
}
use event_driven_notificatio.Service.World.{StatusEvent}
use event_driven_notificatio.Event.{
  Client, close_send, wants, offer, deliver_one, sort_out, deliver,
}
use event_driven_notificatio.Event.Clients.{LacksClient, AreLive, Kept, deliver-Kept}
use event_driven_notificatio.Domain.Errors.{Returns, bind-Returns, both-Returns}
use event_driven_notificatio.Event.Follow.{find_client, got, Follows, LacksClient-find}

-- One client in a broadcast.
abbrev Got : StatusEvent → Client → Client × Bool → Type 0
Got ev c (c', kept) = (c'.id ≡ c.id) × (kept ≡ true → Follows (ev ∷ []) (some c) (some c'))

deliver_one-Got :
    (ev : StatusEvent) (c : Client) → c.closed ≡ false → Returns (Got ev c) (deliver_one ev c)
unfolding deliver_one offer close_send
deliver_one-Got ev c l = elim (Bool-cases (wants c.batch_id ev)) [
  | inr k ↦ rw k (refl, λ _. (refl, rw k (sym (append-nil (got c)))))
  | inl y ↦ rw y (
      rw l (elim (Bool-cases (ltb (length c.send) 256)) [
        | inl r ↦ rw r (refl, λ _. (refl, rw y (sym (append_assoc c.written c.send (ev ∷ [])))))
        | inr f ↦ rw f (refl, λ h. cc)
      ]))
]

sort_out-Follows :
    (ev : StatusEvent) (id : ℕ) (c : Client) (cs : List Client) (one : Client × Bool)
    (rest : List Client × List Client)
    → LacksClient c.id cs
    → ((j : ℕ) → LacksClient j cs → LacksClient j rest.0)
    → Got ev c one
    → Follows (ev ∷ []) (find_client id cs) (find_client id rest.0)
    → Follows (ev ∷ []) (find_client id (c ∷ cs)) (find_client id (sort_out one rest).0)
unfolding find_client
sort_out-Follows ev id c cs (c', true) (kept, gone) l lacks g f = elim (Bool-cases (c.id == id)) [
  | inl y ↦ rw y (rw (g.0) (rw y (g.1 refl)))
  | inr k ↦ rw k (rw (g.0) (rw k f))
]
sort_out-Follows ev id c cs (c', false) (kept, gone) l lacks g f = elim (Bool-cases (c.id == id)) [
  | inl y ↦
      let e : c.id ≡ id = ground arith in
      rw y (rw (LacksClient-find id kept (lacks id (subst (λ j. LacksClient j cs) e l))) tt)
  | inr k ↦ rw k f
]

-- A broadcast, for the client under an ID.
abbrev Delivered : ℕ → StatusEvent → ℕ → List Client → List Client × List Client → Type 0
Delivered next ev id cs r =
    Kept next cs r.0 × Follows (ev ∷ []) (find_client id cs) (find_client id r.0)

pub deliver-Follows :
    (next : ℕ) (ev : StatusEvent) (id : ℕ) (cs : List Client)
    → AreLive next cs
    → Returns (λ r. Follows (ev ∷ []) (find_client id cs) (find_client id r.0)) (deliver ev cs)
unfolding deliver
deliver-Follows next ev id [] a = unfold find_client in refl
deliver-Follows next ev id (c ∷ cs) (l, n, a) =
    bind-Returns (Got ev c) _ (deliver_one ev c) _ (deliver_one-Got ev c l.opened) (λ one g.
      bind-Returns (Delivered next ev id cs) _ (deliver ev cs) _
        (both-Returns _ _ (deliver ev cs) (deliver-Kept next ev cs a)
          (deliver-Follows next ev id cs a))
        (λ rest k. sort_out-Follows ev id c cs one rest n k.0.1 g k.1))
