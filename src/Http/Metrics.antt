-- ===== src/Http/Metrics.antt =====
-- internal/adapter/handler/metrics.go and health.go. The counters are those of Redis; a pipeline that
-- fails may have run the first of its commands.
pub mod Balance
use event_driven_notificatio.Prelude.{
  ℕ, zero, suc, ◌+◌, String, Bool, true, false, Option, none, some, List, [], ◌∷◌, ◌++◌, take, ltb,
  if◌then◌else◌,
}
use event_driven_notificatio.Domain.Errors.{Error}
use event_driven_notificatio.Domain.Notification.{Channel, channel_sms, channel_email, channel_push}
use event_driven_notificatio.Breaker.{CircuitBreaker, state_string}
use event_driven_notificatio.Queue.{Queues, queue_depth}
use event_driven_notificatio.Service.World.{Recorded, delivery, failure}
use event_driven_notificatio.Http.Response.{HttpResponse, success}

-- The keys metrics:delivered, metrics:failed, metrics:latency_sum and metrics:processed.
pub record Counters : Type 0 where
  pub delivered : ℕ
  pub failed : ℕ
  pub latency_sum : ℕ
  pub processed : ℕ

abbrev pub no_counts : Counters
no_counts = record { delivered = 0; failed = 0; latency_sum = 0; processed = 0 }

unfoldable pub run_commands : List (Counters → Counters) → Counters → Counters
run_commands [] c = c
run_commands (f ∷ fs) c = run_commands fs (f c)

-- The commands of a pipeline that have run: all, or the first few where it fails.
abbrev pub executed {ℓ} : {A : Type ℓ} → Option ℕ → List A → List A
executed none fs = fs
executed (some k) fs = take k fs

-- RecordDelivery
unfoldable pub record_delivery : Option ℕ → ℕ → Counters → Counters
unfolding run_commands
record_delivery fails latency_ms = run_commands (
    executed fails (
      (λ c. record c { delivered = c.delivered + 1 })
      ∷ (λ c. record c { latency_sum = c.latency_sum + latency_ms })
      ∷ (λ c. record c { processed = c.processed + 1 })
      ∷ []))

-- RecordFailure
unfoldable pub record_failed : Option ℕ → Counters → Counters
unfolding run_commands
record_failed fails = run_commands (
    executed fails (
      (λ c. record c { failed = c.failed + 1 })
      ∷ (λ c. record c { processed = c.processed + 1 })
      ∷ []))

-- What the delivery service tells the collector, with the failures of the pipelines.
unfoldable pub record_all : List (Recorded × Option ℕ) → Counters → Counters
unfolding record_delivery record_failed
record_all [] c = c
record_all ((delivery ms, fails) ∷ rs) c = record_all rs (record_delivery fails ms c)
record_all ((failure, fails) ∷ rs) c = record_all rs (record_failed fails c)

-- The body of Get; the average is a dividend and a divisor.
pub record MetricsView : Type 0 where
  pub queue_depths : List (Channel × ℕ)
  pub circuit_states : List (Channel × String)
  pub counters : Counters
  pub average_latency : Option (ℕ × ℕ)

depth_entry : Option Error → Channel → Queues → List (Channel × ℕ)
depth_entry none ch q = (ch, queue_depth ch q) ∷ []
depth_entry (some e) ch q = []

state_entry : Channel → Option CircuitBreaker → List (Channel × String)
state_entry ch none = []
state_entry ch (some cb) = (ch, state_string cb.state) ∷ []

abbrev pub average : ℕ → ℕ → Option (ℕ × ℕ)
average sum processed = if ltb 0 processed then some (sum, processed) else none

-- MetricsHandler.Get; a counter that cannot be read is 0 in `counters`.
unfoldable pub handle_metrics :
    (Channel → Option Error)
    → (Channel → Option CircuitBreaker)
    → Queues
    → Counters
    → HttpResponse MetricsView
unfolding depth_entry state_entry
handle_metrics depth_fails breakers q c =
    let depth = λ (ch : Channel). depth_entry (depth_fails ch) ch q in
    let state = λ (ch : Channel). state_entry ch (breakers ch) in
    success 200 (record {
      queue_depths = depth channel_sms ++ (depth channel_email ++ depth channel_push);
      circuit_states = state channel_sms ++ (state channel_email ++ state channel_push);
      counters = c;
      average_latency = average c.latency_sum c.processed;
    })

-- The body of Check.
pub record HealthView : Type 0 where
  pub healthy : Bool
  pub postgres_up : Bool
  pub redis_up : Bool

-- HealthHandler.Check, from the results of the two pings
unfoldable pub handle_health : Option Error → Option Error → HttpResponse HealthView
handle_health none none =
    success 200 (record { healthy = true; postgres_up = true; redis_up = true })
handle_health (some e) none =
    success 503 (record { healthy = false; postgres_up = false; redis_up = true })
handle_health none (some e) =
    success 503 (record { healthy = false; postgres_up = true; redis_up = false })
handle_health (some e) (some f) =
    success 503 (record { healthy = false; postgres_up = false; redis_up = false })
