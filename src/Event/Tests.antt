-- ===== src/Event/Tests.antt =====
-- A hub of internal/adapter/event/hub.go with two clients, of which one wants the events of one batch.
use event_driven_notificatio.Prelude.{◌≡◌, refl, String, true, List, [], ◌∷◌, length, map, arith}
use event_driven_notificatio.Service.World.{StatusEvent}
use event_driven_notificatio.Event.{
  Hub, Client, new_hub, register, Action, registers, unregisters, relays, publishes, pumps, run,
  deliver, wants,
}
use event_driven_notificatio.Domain.Errors.{Returns}
use event_driven_notificatio.Event.Live.{IsHub, run-new_hub-IsHub}
use event_driven_notificatio.Event.Follow.{find_client, got, Follows}
use event_driven_notificatio.Event.Feed.{handed_out, run-Follows}

abbrev event_of_batch : String → StatusEvent
event_of_batch batch_id = record {
  notification_id = "n";
  batch_id = batch_id;
  status = "delivered";
  channel = "sms";
  timestamp = 2;
  error = "";
}

abbrev history : List Action
history =
    registers "a"
    ∷ registers ""
    ∷ publishes (event_of_batch "b")
    ∷ relays
    ∷ pumps 1
    ∷ unregisters 0
    ∷ unregisters 0
    ∷ []

run-new_hub-IsHub_example : Returns IsHub (run history (new_hub true true))
run-new_hub-IsHub_example = run-new_hub-IsHub true true history

-- The client without a batch ID has got the event, the other has not.
hands_out_one :
    Returns
      (λ h. map (λ (c : Client). length (got c)) h.clients ≡ 1 ∷ [])
      (run history (new_hub true true))
unfolding run new_hub wants deliver
hands_out_one = refl

abbrev watched : Hub
watched = register "a" (new_hub true true)

abbrev later : List Action
later =
    publishes (event_of_batch "a") ∷ publishes (event_of_batch "b") ∷ relays ∷ pumps 0 ∷ relays ∷ []

run-Follows_example :
    Returns
      (λ h.
        Follows
          (handed_out later watched)
          (find_client 0 watched.clients)
          (find_client 0 h.clients))
      (run later watched)
run-Follows_example = run-Follows 0 later watched (unfold register new_hub in omega arith) (
    unfold register new_hub in
    record {
      live = (record { opened = refl; fits = omega arith; known = omega arith }, tt, tt);
      room = omega arith;
    })
