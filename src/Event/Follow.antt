-- ===== src/Event/Follow.antt =====
-- What a client of the map of internal/adapter/event/hub.go has got, from one state of the map to a later.
pub mod Broadcast
pub mod Entries
use mathlib.Core.List.{append-nil, append_assoc}
use mathlib.Core.Path.{subst}
use event_driven_notificatio.Prelude.{
  ℕ, ◌≤◌, ◌<◌, ◌≡◌, refl, sym, ap, ◌∙◌, String, Bool, true, false, Option, none, some, List, [],
  ◌∷◌, ◌++◌, map, length, ltb, ◌==◌, if◌then◌else◌, arith, Bool-cases, inl, inr, filterb,
  filterb-append,
}
use event_driven_notificatio.Domain.Errors.{Result, ok, err, panics, ◌>>=◌}
use event_driven_notificatio.Service.World.{StatusEvent}
use event_driven_notificatio.Event.{
  Client, Hub, register, close_send, take_out, close_found, unregister, wants, offer, deliver_one,
  sort_out, deliver, relayed, relay, feed, publish, receive, sent_first, pump_one, pump, Action,
  registers, unregisters, relays, publishes, receives, pumps, act, run,
}
use event_driven_notificatio.Event.Live.{IsHub, act-IsHub}
use event_driven_notificatio.Event.Clients.{
  IsLive, LacksClient, AreLive, Offered, deliver_one-Offered, Kept, sort_out-Kept, deliver-Kept,
  take_out-Kept, AreLive-weaken, AreLive-LacksClient, AreLive-append, pumped, sent_first-IsLive,
  pump_one-IsLive, pumped-IsLive, pumped-Kept,
}
use event_driven_notificatio.Domain.Errors.{Returns, bind-Returns, both-Returns, weaken-Returns}

unfoldable pub find_client : ℕ → List Client → Option Client
find_client id [] = none
find_client id (c ∷ cs) = if c.id == id then some c else find_client id cs

-- What a client has got: what its writePump has taken, and what its channel holds.
abbrev pub got : Client → List StatusEvent
got c = c.written ++ c.send

-- From a client, if it is in the map, to what it is later: the same filter, and the wanted ones of the
-- events, each once and in their order. A client that is not in the map does not come back.
abbrev pub Follows : List StatusEvent → Option Client → Option Client → Type 0
Follows evs none later = later ≡ none
Follows evs (some c) none = Unit
Follows evs (some c) (some c') =
    (c'.batch_id ≡ c.batch_id) × (got c' ≡ got c ++ filterb (wants c.batch_id) evs)

pub Follows-refl : (o : Option Client) → Follows [] o o
Follows-refl none = refl
Follows-refl (some c) = (refl, sym (append-nil (got c)))

pub Follows-trans :
    (xs ys : List StatusEvent) (a b c : Option Client)
    → Follows xs a b
    → Follows ys b c
    → Follows (xs ++ ys) a c
Follows-trans xs ys none b c h k = subst (λ o. Follows ys o c) h k
Follows-trans xs ys (some a) none none h k = tt
Follows-trans xs ys (some a) none (some c) h k = cc
Follows-trans xs ys (some a) (some b) none h k = tt
Follows-trans xs ys (some a) (some b) (some c) (e, g) (e', g') = (
  e' ∙ e,
  g'
      ∙ (ap (λ l. l ++ filterb (wants b.batch_id) ys) g
          ∙ (ap (λ (k : String). (got a ++ filterb (wants a.batch_id) xs) ++ filterb (wants k) ys) e
              ∙ (append_assoc (got a) (filterb (wants a.batch_id) xs)
                    (filterb (wants a.batch_id) ys)
                  ∙ ap (λ l. got a ++ l) (sym (filterb-append (wants a.batch_id) xs ys))))),
)

pub LacksClient-find : (id : ℕ) (cs : List Client) → LacksClient id cs → find_client id cs ≡ none
unfolding find_client
LacksClient-find id [] l = refl
LacksClient-find id (c ∷ cs) l = rw (l.0) (LacksClient-find id cs l.1)
