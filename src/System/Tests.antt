-- ===== src/System/Tests.antt =====
-- The program from its start: a notification is created, a failing tick, a poll, and a tick that sends it.
use event_driven_notificatio.Prelude.{◌^◌, ◌*◌, false, none, some, List, [], ◌∷◌}
use event_driven_notificatio.Domain.Errors.{foreign}
use event_driven_notificatio.RateLimit.{new_limiter}
use event_driven_notificatio.Service.Delivery.{DeliveryConfig}
use event_driven_notificatio.Service.Scheduler.{PollOutside}
use event_driven_notificatio.Service.Tests.{texts, outside, takes}
use event_driven_notificatio.Service.IntakeTests.{by_sms, plain_engine, create_outside}
use event_driven_notificatio.Worker.{RoundOutside}
use event_driven_notificatio.System.{Step, creates, cancels, polls_retry, works, start, run}
use event_driven_notificatio.System.Safe.{Survives, run-start-Survives}

abbrev settings : DeliveryConfig
settings = record { max_retries = 3; base_delay = 10 ^ 9; max_delay = 30 * 10 ^ 9 }

abbrev tick : RoundOutside
tick = record { dequeue_fails = none; smembers_fails = none; srem_fails = none; delivery = outside }

abbrev poll : PollOutside
poll = record {
  query_fails = none;
  locked = λ id. false;
  now = 3000000000;
  pipeline_fails = none;
  clock_ms = λ i. 3000;
}

abbrev steps : List Step
steps =
    creates create_outside by_sms
    ∷ works "sms" (record tick { dequeue_fails = some (foreign "connection refused") })
    ∷ polls_retry poll
    ∷ works "sms" tick
    ∷ cancels none none 4000000000 12
    ∷ []

run-start-Survives_example : Survives (
    run texts plain_engine takes
      (new_limiter 100)
      settings
      steps
      (start texts plain_engine takes (new_limiter 100) settings))
run-start-Survives_example =
    run-start-Survives texts plain_engine takes (new_limiter 100) settings steps
