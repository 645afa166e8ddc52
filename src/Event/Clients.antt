-- ===== src/Event/Clients.antt =====
-- The entries of the map of internal/adapter/event/hub.go: open channels under distinct IDs, which a
-- broadcast, an unregister and a writePump keep.
use event_driven_notificatio.Prelude.{
  ℕ, suc, ◌≤◌, ◌<◌, ◌≡◌, refl, Bool, true, false, List, [], ◌∷◌, ◌++◌, map, length, ltb, ◌==◌,
  if◌then◌else◌, All, All-append, arith, Bool-cases, inl, inr, length-append, ltb→lt,
}
use event_driven_notificatio.Service.World.{StatusEvent}
use event_driven_notificatio.Event.{
  Client, close_send, take_out, wants, offer, deliver_one, sort_out, deliver, sent_first, pump_one,
}
use event_driven_notificatio.Domain.Errors.{Returns, bind-Returns}

-- An open channel within its capacity, under an ID that was given out.
pub record IsLive (next : ℕ) (c : Client) : Type 0 where
  pub opened : c.closed ≡ false
  pub fits : length c.send ≤ 256
  pub known : c.id < next

-- No client has the ID.
abbrev pub LacksClient : ℕ → List Client → Type 0
LacksClient id = All (λ c. (c.id == id) ≡ false)

-- Live clients with distinct IDs.
abbrev pub AreLive : ℕ → List Client → Type 0
AreLive next [] = Unit
AreLive next (c ∷ cs) = IsLive next c × LacksClient c.id cs × AreLive next cs

-- A client after a broadcast: the same ID, and live if it stays.
abbrev pub Offered : ℕ → Client → Client × Bool → Type 0
Offered next c (c', kept) = (c'.id ≡ c.id) × (kept ≡ true → IsLive next c')

pub deliver_one-Offered :
    (next : ℕ) (ev : StatusEvent) (c : Client)
    → IsLive next c
    → Returns (Offered next c) (deliver_one ev c)
unfolding deliver_one offer close_send
deliver_one-Offered next ev c l = elim (Bool-cases (wants c.batch_id ev)) [
  | inr k ↦ rw k (refl, λ _. l)
  | inl y ↦ rw y (
      rw (l.opened) (elim (Bool-cases (ltb (length c.send) 256)) [
        | inl r ↦ rw r (
          refl,
          λ _. record {
            opened = refl;
            fits = omega (arith, length-append c.send (ev ∷ []), ltb→lt (length c.send) 256 r);
            known = l.known;
          },
        )
        | inr f ↦ rw f (refl, λ h. cc)
      ]))
]

-- The clients that a call leaves in the map: live, and no ID is new.
abbrev pub Kept : ℕ → List Client → List Client → Type 0
Kept next cs cs' = AreLive next cs' × ((id : ℕ) → LacksClient id cs → LacksClient id cs')

pub sort_out-Kept :
    (next : ℕ) (c : Client) (cs : List Client) (one : Client × Bool)
    (rest : List Client × List Client)
    → LacksClient c.id cs
    → Offered next c one
    → Kept next cs rest.0
    → Kept next (c ∷ cs) (sort_out one rest).0
sort_out-Kept next c cs (c', false) (kept, gone) l o k = (k.0, λ id h. k.1 id h.1)
sort_out-Kept next c cs (c', true) (kept, gone) l o k =
    ((o.1 refl, rw (o.0) (k.1 c.id l), k.0), λ id h. (rw (o.0) h.0, k.1 id h.1))

pub deliver-Kept :
    (next : ℕ) (ev : StatusEvent) (cs : List Client)
    → AreLive next cs
    → Returns (λ r. Kept next cs r.0) (deliver ev cs)
unfolding deliver
deliver-Kept next ev [] a = (tt, λ id h. h)
deliver-Kept next ev (c ∷ cs) (l, n, a) =
    bind-Returns (Offered next c) (λ r. Kept next (c ∷ cs) r.0) (deliver_one ev c) _
      (deliver_one-Offered next ev c l)
      (λ one o.
        bind-Returns (λ r. Kept next cs r.0) (λ r. Kept next (c ∷ cs) r.0) (deliver ev cs) _
          (deliver-Kept next ev cs a) (λ rest k. sort_out-Kept next c cs one rest n o k))

pub take_out-Kept :
    (next id : ℕ) (cs : List Client)
    → AreLive next cs
    → Kept next cs (take_out id cs).1 × AreLive next (take_out id cs).0
unfolding take_out
take_out-Kept next id [] a = ((tt, λ j h. h), tt)
take_out-Kept next id (c ∷ cs) (l, n, a) = elim (Bool-cases (c.id == id)) [
  | inl y ↦ rw y ((a, λ j h. h.1), (l, tt, tt))
  | inr k ↦
      let (x, y) = take_out-Kept next id cs a in
      rw k (((l, x.1 c.id n, x.0), λ j h. (h.0, x.1 j h.1)), y)
]

pub AreLive-weaken : (next : ℕ) (cs : List Client) → AreLive next cs → AreLive (suc next) cs
AreLive-weaken next [] a = tt
AreLive-weaken next (c ∷ cs) (l, n, a) = (
  record { opened = l.opened; fits = l.fits; known = omega (arith, l.known) },
  n,
  AreLive-weaken next cs a,
)

pub AreLive-LacksClient : (next : ℕ) (cs : List Client) → AreLive next cs → LacksClient next cs
AreLive-LacksClient next [] a = tt
AreLive-LacksClient next (c ∷ cs) (l, n, a) =
    (let k = l.known in ground arith, AreLive-LacksClient next cs a)

pub AreLive-append :
    (next : ℕ) (cs : List Client) (c : Client)
    → AreLive next cs
    → IsLive next c
    → LacksClient c.id cs
    → AreLive next (cs ++ c ∷ [])
AreLive-append next [] c a l n = (l, tt, tt)
AreLive-append next (x ∷ cs) c (lx, nx, a) l n = (
  lx,
  All-append (λ y. (y.id == x.id) ≡ false) cs (c ∷ []) nx (let k = n.0 in ground arith, tt),
  AreLive-append next cs c a l n.1,
)

abbrev pub pumped : ℕ → Client → Client
pumped id c = if c.id == id then pump_one c else c

pub sent_first-IsLive :
    (next : ℕ) (ms : List StatusEvent) (c : Client)
    → length ms ≤ 256
    → IsLive next c
    → IsLive next (sent_first ms c) × ((sent_first ms c).id ≡ c.id)
unfolding sent_first
sent_first-IsLive next [] c b l = (l, refl)
sent_first-IsLive next (m ∷ ms) c b l =
    (record { opened = l.opened; fits = omega arith; known = l.known }, refl)

pub pump_one-IsLive :
    (next : ℕ) (c : Client) → IsLive next c → IsLive next (pump_one c) × ((pump_one c).id ≡ c.id)
unfolding pump_one
pump_one-IsLive next c l = sent_first-IsLive next c.send c l.fits l

pub pumped-IsLive :
    (next id : ℕ) (c : Client)
    → IsLive next c
    → IsLive next (pumped id c) × ((pumped id c).id ≡ c.id)
pumped-IsLive next id c l = elim (Bool-cases (c.id == id)) [
  | inl y ↦ rw y (pump_one-IsLive next c l)
  | inr k ↦ rw k (l, refl)
]

pub pumped-Kept :
    (next id : ℕ) (cs : List Client) → AreLive next cs → Kept next cs (map (pumped id) cs)
pumped-Kept next id [] a = (tt, λ j h. h)
pumped-Kept next id (c ∷ cs) (l, n, a) =
    let (x, y) = pumped-IsLive next id c l in
    let k = pumped-Kept next id cs a in ((x, rw y (k.1 c.id n), k.0), λ j h. (rw y h.0, k.1 j h.1))
