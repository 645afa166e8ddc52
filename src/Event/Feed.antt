-- ===== src/Event/Feed.antt =====
-- What a client of the hub (internal/adapter/event/hub.go) gets while it stays in the map.
use event_driven_notificatio.Prelude.{
  ℕ, ◌≤◌, ◌<◌, ◌≡◌, String, Bool, true, false, List, [], ◌∷◌, ◌++◌, length, ltb, ◌==◌,
  if◌then◌else◌, arith, Bool-cases, inl, inr,
}
use event_driven_notificatio.Domain.Errors.{Result, ok, err, panics, ◌>>=◌}
use event_driven_notificatio.Service.World.{StatusEvent}
use event_driven_notificatio.Event.{
  Client, Hub, register, close_send, take_out, close_found, unregister, deliver, relayed, relay,
  feed, publish, receive, pump, Action, registers, unregisters, relays, publishes, receives, pumps,
  act, run,
}
use event_driven_notificatio.Event.Live.{IsHub, act-IsHub}
use event_driven_notificatio.Event.Clients.{AreLive, take_out-Kept}
use event_driven_notificatio.Domain.Errors.{Returns, bind-Returns, both-Returns, weaken-Returns}
use event_driven_notificatio.Event.Follow.{find_client, Follows, Follows-refl, Follows-trans}
use event_driven_notificatio.Event.Follow.Broadcast.{deliver-Follows}
use event_driven_notificatio.Event.Follow.Entries.{take_out-Follows, find-append, pump-Follows}

-- The event that Run takes out of its channel and hands to the clients.
unfoldable pub event_of : Action → List StatusEvent → List StatusEvent
event_of relays [] = []
event_of relays (ev ∷ evs) = ev ∷ []
event_of (registers batch_id) evs = []
event_of (unregisters id) evs = []
event_of (publishes ev) evs = []
event_of (receives ev) evs = []
event_of (pumps id) evs = []

-- A step for the client under an ID.
abbrev Moves : ℕ → List StatusEvent → Hub → Hub → Type 0
Moves id evs h h' =
    Follows evs (find_client id h.clients) (find_client id h'.clients) × (h.next_id ≤ h'.next_id)

relayed-Moves :
    (id : ℕ) (evs : List StatusEvent) (h : Hub)
    → AreLive h.next_id h.clients
    → Returns (Moves id (event_of relays evs) h) (relayed evs h)
unfolding relayed event_of
relayed-Moves id [] h a = (Follows-refl (find_client id h.clients), omega arith)
relayed-Moves id (ev ∷ evs) h a =
    bind-Returns _ _ (deliver ev h.clients) _ (deliver-Follows h.next_id ev id h.clients a)
      (λ r f. (f, omega arith))

close_found-Moves :
    (id : ℕ) (r : List Client × List Client) (h : Hub)
    → AreLive h.next_id r.0
    → Follows [] (find_client id h.clients) (find_client id r.1)
    → Returns (Moves id [] h) (close_found r h)
unfolding close_found close_send
close_found-Moves id ([], rest) h a f = (Follows-refl (find_client id h.clients), omega arith)
close_found-Moves id (c ∷ cs, rest) h a f = rw (a.0.opened) (f, omega arith)

feed-Moves : (id : ℕ) (ev : StatusEvent) (h : Hub) → Moves id [] h (feed ev h)
unfolding feed
feed-Moves id ev h = elim (Bool-cases (ltb (length h.broadcast) 256)) [
  | inl y ↦ rw y (Follows-refl (find_client id h.clients), omega arith)
  | inr k ↦ rw k (Follows-refl (find_client id h.clients), omega arith)
]

receive-Moves : (id : ℕ) (ev : StatusEvent) (h : Hub) → Moves id [] h (receive ev h)
unfolding receive
receive-Moves id ev h = go h.has_redis
  where
    go : (b : Bool) → Moves id [] h (if b then feed ev h else h)
    go true = feed-Moves id ev h
    go false = (Follows-refl (find_client id h.clients), omega arith)

register-Moves :
    (id : ℕ) (batch_id : String) (h : Hub) → id < h.next_id → Moves id [] h (register batch_id h)
unfolding register
register-Moves id batch_id h l =
    let k : (h.next_id == id) ≡ false = ground arith in
    (
      rw
          (find-append id h.clients
            (record {
              id = h.next_id;
              batch_id = batch_id;
              send = [];
              closed = false;
              written = [];
            })
            k)
          (Follows-refl (find_client id h.clients)),
      omega arith,
    )

act-Moves :
    (id : ℕ) (a : Action) (h : Hub)
    → id < h.next_id
    → IsHub h
    → Returns (Moves id (event_of a h.broadcast) h) (act a h)
unfolding act unregister relay publish pump event_of
act-Moves id (registers batch_id) h l i = register-Moves id batch_id h l
act-Moves id (unregisters j) h l i =
    close_found-Moves id (take_out j h.clients) h (take_out-Kept h.next_id j h.clients i.live).1
      (take_out-Follows h.next_id id j h.clients i.live)
act-Moves id relays h l i = relayed-Moves id h.broadcast h i.live
act-Moves id (publishes ev) h l i = feed-Moves id ev h
act-Moves id (receives ev) h l i = receive-Moves id ev h
act-Moves id (pumps j) h l i = (pump-Follows id j h.clients, omega arith)

-- The events that Run hands to the clients during some actions, in their order.
unfoldable pub handed_out : List Action → Hub → List StatusEvent
unfolding event_of
handed_out [] h = []
handed_out (a ∷ actions) h =
    event_of a h.broadcast
    ++ (elim (act a h) [ ok h' ↦ handed_out actions h' | err e ↦ [] | panics ↦ [] ])

run_step-Follows :
    (id : ℕ) (evs : List StatusEvent) (actions : List Action) (h : Hub) (r : Result Hub)
    → Returns (λ h'. Moves id evs h h') r
    → Returns
        (λ h'.
          Returns
            (λ h''.
              Follows
                (handed_out actions h')
                (find_client id h'.clients)
                (find_client id h''.clients))
            (run actions h'))
        r
    → Returns
        (λ h''.
          Follows
            (evs ++ (elim r [ ok h' ↦ handed_out actions h' | err e ↦ [] | panics ↦ [] ]))
            (find_client id h.clients)
            (find_client id h''.clients))
        (r >>= run actions)
run_step-Follows id evs actions h (ok h') m f =
    weaken-Returns _ _ (run actions h')
      (λ h'' k. Follows-trans evs (handed_out actions h') _ _ _ m.0 k) f
run_step-Follows id evs actions h (err e) m f = m
run_step-Follows id evs actions h panics m f = m

-- From a hub in its invariant on, whatever happens and in whatever order, nothing panics, and a client
-- under an ID that was given out, if it is in the map at the end, was in it before, has kept its filter
-- and has got, beyond what it had, the events that Run took out of the broadcast channel in the
-- meantime and its filter wants: each once, in order, and no other.
pub run-Follows :
    (id : ℕ) (actions : List Action) (h : Hub)
    → id < h.next_id
    → IsHub h
    → Returns
        (λ h'.
          Follows (handed_out actions h) (find_client id h.clients) (find_client id h'.clients))
        (run actions h)
unfolding run handed_out
run-Follows id [] h l i = Follows-refl (find_client id h.clients)
run-Follows id (a ∷ actions) h l i =
    run_step-Follows id (event_of a h.broadcast) actions h (act a h) (act-Moves id a h l i) (
      weaken-Returns _ _ (act a h) (λ h' k. run-Follows id actions h' (omega (arith, k.0.1)) k.1)
        (both-Returns (Moves id (event_of a h.broadcast) h) IsHub (act a h) (act-Moves id a h l i)
          (act-IsHub a h i)))
