-- ===== src/Event/Live.antt =====
-- The hub of internal/adapter/event/hub.go never panics: the clients in its map have open channels.
use event_driven_notificatio.Prelude.{
  ℕ, suc, ◌≤◌, refl, String, Bool, true, false, List, [], ◌∷◌, length, ltb, if◌then◌else◌, arith,
  Bool-cases, inl, inr, length-append, ltb→lt,
}
use event_driven_notificatio.Service.World.{StatusEvent}
use event_driven_notificatio.Event.{
  Client, Hub, new_hub, register, close_send, take_out, close_found, unregister, deliver, relayed,
  relay, feed, publish, receive, pump, Action, registers, unregisters, relays, publishes, receives,
  pumps, act, run,
}
use event_driven_notificatio.Domain.Errors.{Returns, bind-Returns}
use event_driven_notificatio.Event.Clients.{
  AreLive, Kept, deliver-Kept, take_out-Kept, AreLive-weaken, AreLive-LacksClient, AreLive-append,
  pumped-Kept,
}

-- The invariant of the hub.
pub record IsHub (h : Hub) : Type 0 where
  pub live : AreLive h.next_id h.clients
  pub room : length h.broadcast ≤ 256

relayed-IsHub :
    (evs : List StatusEvent) (h : Hub)
    → length evs ≤ 256
    → AreLive h.next_id h.clients
    → length h.broadcast ≤ 256
    → Returns IsHub (relayed evs h)
unfolding relayed
relayed-IsHub [] h r a b = record { live = a; room = b }
relayed-IsHub (ev ∷ evs) h r a b =
    bind-Returns (λ x. Kept h.next_id h.clients x.0) IsHub (deliver ev h.clients) _
      (deliver-Kept h.next_id ev h.clients a) (λ x k. record { live = k.0; room = omega arith })

close_found-IsHub :
    (found : List Client × List Client) (h : Hub)
    → AreLive h.next_id found.0
    → AreLive h.next_id found.1
    → IsHub h
    → Returns IsHub (close_found found h)
unfolding close_found close_send
close_found-IsHub ([], rest) h f r i = i
close_found-IsHub (c ∷ cs, rest) h f r i = rw (f.0.opened) (record { live = r; room = i.room })

register-IsHub : (batch_id : String) (h : Hub) → IsHub h → IsHub (register batch_id h)
unfolding register
register-IsHub batch_id h i = record {
  live =
      AreLive-append (suc h.next_id) h.clients _ (AreLive-weaken h.next_id h.clients i.live)
        (record { opened = refl; fits = omega arith; known = omega arith })
        (AreLive-LacksClient h.next_id h.clients i.live);
  room = i.room;
}

feed-IsHub : (ev : StatusEvent) (h : Hub) → IsHub h → IsHub (feed ev h)
unfolding feed
feed-IsHub ev h i = elim (Bool-cases (ltb (length h.broadcast) 256)) [
  | inl y ↦ rw y (record {
    live = i.live;
    room = omega (arith, length-append h.broadcast (ev ∷ []), ltb→lt (length h.broadcast) 256 y);
  })
  | inr k ↦ rw k i
]

receive-IsHub : (ev : StatusEvent) (h : Hub) → IsHub h → IsHub (receive ev h)
unfolding receive
receive-IsHub ev h i = go h.has_redis
  where
    go : (b : Bool) → IsHub (if b then feed ev h else h)
    go true = feed-IsHub ev h i
    go false = i

pump-IsHub : (id : ℕ) (h : Hub) → IsHub h → IsHub (pump id h)
unfolding pump
pump-IsHub id h i = record { live = (pumped-Kept h.next_id id h.clients i.live).0; room = i.room }

pub act-IsHub : (a : Action) (h : Hub) → IsHub h → Returns IsHub (act a h)
unfolding act unregister relay publish
act-IsHub (registers batch_id) h i = register-IsHub batch_id h i
act-IsHub (unregisters id) h i =
    let (k, f) = take_out-Kept h.next_id id h.clients i.live in
    close_found-IsHub (take_out id h.clients) h f k.0 i
act-IsHub relays h i = relayed-IsHub h.broadcast h i.room i.live i.room
act-IsHub (publishes ev) h i = feed-IsHub ev h i
act-IsHub (receives ev) h i = receive-IsHub ev h i
act-IsHub (pumps id) h i = pump-IsHub id h i

pub run-IsHub : (actions : List Action) (h : Hub) → IsHub h → Returns IsHub (run actions h)
unfolding run
run-IsHub [] h i = i
run-IsHub (a ∷ actions) h i =
    bind-Returns IsHub IsHub (act a h) (run actions) (act-IsHub a h i)
      (λ h' i'. run-IsHub actions h' i')

-- Whatever happens to a new hub, in whatever order, nothing panics: no channel is closed twice and
-- nothing is sent on a closed channel; the clients in the map have distinct IDs and open channels; and
-- no channel holds more than its 256 messages.
pub run-new_hub-IsHub :
    (has_redis subscriber : Bool) (actions : List Action)
    → Returns IsHub (run actions (new_hub has_redis subscriber))
unfolding new_hub
run-new_hub-IsHub has_redis subscriber actions =
    run-IsHub actions _ (record { live = tt; room = omega arith })
