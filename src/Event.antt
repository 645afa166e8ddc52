-- ===== src/Event.antt =====
-- internal/adapter/event/hub.go: the hub of the WebSocket clients. `clients` are the entries of the
-- map, in the order in which a broadcast meets them, `gone` those that have been deleted from it; a
-- client's `send` is its channel, `written` what its writePump has taken. A send on a closed channel and
-- a second close panic.
pub mod Clients
pub mod Follow
pub mod Live
pub mod Feed
mod Tests
use event_driven_notificatio.Prelude.{
  ℕ, suc, String, Bool, true, false, not, ◌&&◌, ◌||◌, List, [], ◌∷◌, ◌++◌, map, length, ltb, ◌==◌,
  str_eq, if◌then◌else◌,
}
use event_driven_notificatio.Domain.Errors.{Result, ok, err, panics, ◌>>=◌}
use event_driven_notificatio.Service.World.{StatusEvent}

-- Client, with an ID for its pointer
pub record Client : Type 0 where
  pub id : ℕ
  pub batch_id : String
  pub send : List StatusEvent
  pub closed : Bool
  pub written : List StatusEvent

pub record Hub : Type 0 where
  pub clients : List Client
  pub gone : List Client
  pub broadcast : List StatusEvent
  pub next_id : ℕ
  pub has_redis : Bool
  pub subscriber : Bool

-- The capacity of `broadcast` and of each `send`.
abbrev pub buffer_size : ℕ
buffer_size = 256

-- NewHub
unfoldable pub new_hub : Bool → Bool → Hub
new_hub has_redis subscriber = record {
  clients = [];
  gone = [];
  broadcast = [];
  next_id = 0;
  has_redis = has_redis;
  subscriber = subscriber;
}

-- Register, and its case in Run
unfoldable pub register : String → Hub → Hub
register batch_id h = record h {
  clients =
      h.clients
      ++ record { id = h.next_id; batch_id = batch_id; send = []; closed = false; written = [] }
        ∷ [];
  next_id = suc (h.next_id);
}

-- close(client.send)
unfoldable pub close_send : Client → Result Client
close_send c = if c.closed then panics else ok (record c { closed = true })

-- The entry of a client, and the other entries.
unfoldable pub take_out : ℕ → List Client → List Client × List Client
take_out id [] = ([], [])
take_out id (c ∷ cs) =
    let (found, rest) = take_out id cs in if c.id == id then (c ∷ [], cs) else (found, c ∷ rest)

close_found : List Client × List Client → Hub → Result Hub
unfolding close_send
close_found ([], rest) h = ok h
close_found (c ∷ _, rest) h = do
  c' ← close_send c
  ok (record h { clients = rest; gone = c' ∷ h.gone })

-- The case of `unregister` in Run.
unfoldable pub unregister : ℕ → Hub → Result Hub
unfolding close_found take_out
unregister id h = close_found (take_out id h.clients) h

-- The filter of a broadcast: a client with a batch ID wants the events of that batch.
unfoldable pub wants : String → StatusEvent → Bool
wants batch_id ev = str_eq batch_id "" || str_eq batch_id ev.batch_id

-- The inner `select`: the client with what it holds, and whether it stays in the map.
unfoldable pub offer : StatusEvent → Client → Result (Client × Bool)
unfolding close_send
offer ev c =
    let dropped = close_send c >>= λ c'. ok (c', false) in
    if c.closed
    then panics
    else if ltb (length c.send) buffer_size
    then ok (record c { send = c.send ++ ev ∷ [] }, true)
    else dropped

unfoldable pub deliver_one : StatusEvent → Client → Result (Client × Bool)
unfolding offer wants
deliver_one ev c = if wants c.batch_id ev then offer ev c else ok (c, true)

abbrev pub sort_out : Client × Bool → List Client × List Client → List Client × List Client
sort_out (c, true) (cs, gone) = (c ∷ cs, gone)
sort_out (c, false) (cs, gone) = (cs, c ∷ gone)

-- The loop of a broadcast over the clients: those that stay, and those that are dropped.
unfoldable pub deliver : StatusEvent → List Client → Result (List Client × List Client)
unfolding deliver_one
deliver ev [] = ok ([], [])
deliver ev (c ∷ cs) = deliver_one ev c >>= λ one. deliver ev cs >>= λ rest. ok (sort_out one rest)

relayed : List StatusEvent → Hub → Result Hub
unfolding deliver
relayed [] h = ok h
relayed (ev ∷ evs) h = deliver ev h.clients >>= λ (r : List Client × List Client).
    ok (record h { clients = r.0; gone = r.1 ++ h.gone; broadcast = evs })

-- The case of `broadcast` in Run; with no event it waits.
unfoldable pub relay : Hub → Result Hub
unfolding relayed
relay h = relayed h.broadcast h

-- A send to `broadcast` that does not wait: an event without room is dropped.
unfoldable pub feed : StatusEvent → Hub → Hub
feed ev h =
    if ltb (length h.broadcast) buffer_size
    then record h { broadcast = h.broadcast ++ ev ∷ [] }
    else h

-- Publish: the hub, and what goes to Redis.
unfoldable pub publish : StatusEvent → Hub → Hub × List StatusEvent
unfolding feed
publish ev h = (feed ev h, if h.has_redis && not h.subscriber then ev ∷ [] else [])

-- SubscribeRedis, for a message that unmarshals.
unfoldable pub receive : StatusEvent → Hub → Hub
unfolding feed
receive ev h = if h.has_redis then feed ev h else h

-- A client whose writePump takes the first of the messages.
unfoldable pub sent_first : List StatusEvent → Client → Client
sent_first [] c = c
sent_first (m ∷ ms) c = record c { send = ms; written = c.written ++ m ∷ [] }

-- writePump takes the first message of its channel.
unfoldable pub pump_one : Client → Client
unfolding sent_first
pump_one c = sent_first c.send c

unfoldable pub pump : ℕ → Hub → Hub
unfolding pump_one
pump id h =
    let run = λ (c : Client). if c.id == id then pump_one c else c in
    record h { clients = map run h.clients; gone = map run h.gone }

-- What may happen next: Run takes an event or a client, some goroutine publishes or receives, a client's
-- writePump goes on.
pub data Action : Type 0 where
  registers : String → Action
  unregisters : ℕ → Action
  relays : Action
  publishes : StatusEvent → Action
  receives : StatusEvent → Action
  pumps : ℕ → Action

unfoldable pub act : Action → Hub → Result Hub
unfolding register unregister relay publish receive pump
act (registers batch_id) h = ok (register batch_id h)
act (unregisters id) h = unregister id h
act relays h = relay h
act (publishes ev) h = ok (publish ev h).0
act (receives ev) h = ok (receive ev h)
act (pumps id) h = ok (pump id h)

-- The actions in the order in which they happen.
unfoldable pub run : List Action → Hub → Result Hub
unfolding act
run [] h = ok h
run (a ∷ actions) h = act a h >>= run actions
