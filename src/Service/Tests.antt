-- ===== src/Service/Tests.antt =====
-- A world with one notification in each state that matters, and the theorems of internal/service at
-- inputs that meet their hypotheses.
use Prim.Native.String.{◌++◌ as append, count}
use text.Mathlib.TextLemmas.{length-append}
use event_driven_notificatio.Prelude.{
  ℕ, zero, suc, ◌*◌, ◌^◌, ◌≡◌, ◌≢◌, refl, ap, ◌∙◌, true, Option, none, some, [], ◌∷◌, String, arith,
}
use event_driven_notificatio.Domain.Errors.{Error, foreign, wrapped, ok, err}
use event_driven_notificatio.Domain.Notification.{
  Uuid, Time, Notification, queued, processing, delivered, is_valid, is_final,
}
use event_driven_notificatio.Breaker.{
  CircuitBreaker, new, allow as breaker_allow, record_success, record_failure,
}
use event_driven_notificatio.RateLimit.{
  empty, new_limiter, allow as limiter_allow, sliding_window_script,
}
use event_driven_notificatio.Postgres.Notifications.{find_row, get_by_id, update}
use event_driven_notificatio.Postgres.Notifications.Table.{IsTable}
use event_driven_notificatio.Service.World.{
  UuidText, World, Outside, Point, SendRequest, Reply, responded, refused, failure, asking_limiter,
  loading, marking_processing, send_end,
}
use event_driven_notificatio.Service.Delivery.{
  DeliveryService, new_breakers, process, message_id, attempt_of,
}
use event_driven_notificatio.Service.Delivery.Outcomes.{IsOpen, asked, process_stranded}
use event_driven_notificatio.Service.Delivery.Steps.{HasBreakers}
use event_driven_notificatio.Service.Delivery.Frame.{returns, process_safe}
use event_driven_notificatio.Service.Delivery.Stages.{started}
use event_driven_notificatio.Service.Delivery.Charge.{IsCharged}
use event_driven_notificatio.Service.Delivery.Replies.{statuses, process_delivers, process_fails}

abbrev pub unary : ℕ → String
unary zero = ""
unary (suc n) = append "x" (unary n)

abbrev pub before : ℕ → Option ℕ
before zero = none
before (suc n) = some n

pub count-unary : (n : ℕ) → count (unary n) ≡ n
count-unary zero = refl
count-unary (suc n) = length-append "x" (unary n) ∙ omega (arith, count-unary n)

-- UUIDs as texts of one letter more than their number; the empty text is none.
abbrev pub texts : UuidText
texts = record {
  parse = λ s. before (count s);
  parse_error = λ s. foreign "invalid UUID length";
  format = λ n. unary (suc n);
  parse-format = λ n. ap before (count-unary (suc n));
}

-- A clock that reads 2 seconds, the send taking 7 milliseconds.
abbrev pub clock : Point → Time
clock send_end = 2007000000
clock _ = 2000000000

abbrev pub outside : Outside
outside = record {
  clock = clock;
  fails = λ p. none;
  request_id = "r";
  attempt_id = 71;
  dead_letter_id = 72;
  random = 0;
}

abbrev pub limiter_down : Outside
limiter_down = record outside { fails = fault }
  where
    fault : Point → Option Error
    fault asking_limiter = some (foreign "connection refused")
    fault _ = none

abbrev pub waiting : Notification
waiting = record {
  id = 3;
  batch_id = none;
  idempotency_key = none;
  channel = "sms";
  recipient = "+905551234567";
  subject = "";
  content = "hello";
  priority = 1;
  status = queued;
  scheduled_at = none;
  sent_at = none;
  provider_msg_id = none;
  retry_count = 0;
  max_retries = 3;
  next_retry_at = none;
  metadata = none;
  template_id = none;
  template_vars = none;
  error_message = none;
  created_at = 5;
  updated_at = 5;
}

abbrev pub world : World
world = record {
  rows = waiting ∷ record waiting { id = 4 } ∷ [];
  attempts = [];
  dead_letters = [];
  queues = record { waiting = λ k. []; in_process = λ k. [] };
  windows = λ k. empty;
  breakers = new_breakers;
  metrics = [];
  events = [];
}

abbrev pub service : DeliveryService
service = record {
  limiter = new_limiter 100;
  max_retries = 3;
  base_delay = 10 ^ 9;
  max_delay = 30 * 10 ^ 9;
}

abbrev pub takes : SendRequest → Reply
takes r = responded (some "m1")

abbrev fails_to_send : SendRequest → Reply
fails_to_send r = refused (foreign "timeout")

-- The first notification is delivered.
process-takes : (process texts service takes outside "xxxx" world).0 ≡ ok tt
unfolding process breaker_allow record_success limiter_allow get_by_id update new_breakers find_row
    new_limiter sliding_window_script is_final
process-takes = refl

pub world-IsTable : IsTable world.rows
unfolding is_valid
world-IsTable = ground arith

pub world-HasBreakers : HasBreakers world.breakers
unfolding new_breakers is_valid
world-HasBreakers c v = ground arith

pub world-IsOpen :
    (o : Outside)
    → o.fails loading ≡ none
    → o.fails marking_processing ≡ none
    → IsOpen texts o "xxxx" waiting (new 5 3 3 (30 * 10 ^ 9)) world
unfolding new_breakers is_final find_row
world-IsOpen o l m = record {
  parses = refl;
  found = refl;
  not_final = refl;
  guard = refl;
  loads = l;
  marks = m;
}

process_safe_example :
    let (reply, w') = process texts service takes outside "xxxx" world in
    (returns reply ≡ true)
    × IsTable w'.rows
    × HasBreakers w'.breakers
    × ((j : Uuid) → texts.parse "xxxx" ≢ some j → find_row j w'.rows ≡ find_row j world.rows)
process_safe_example =
    process_safe texts service takes outside "xxxx" world world-IsTable world-HasBreakers

abbrev pub breaker : CircuitBreaker
unfolding new
breaker = new 5 3 3 (30 * 10 ^ 9)

process_delivers_example :
    let (reply, w') = process texts service takes outside "xxxx" world in
    (reply ≡ ok tt)
    × ((r : Notification) × (find_row 3 w'.rows ≡ some r)
        × (r.status ≡ delivered)
        × (r.sent_at ≡ some 2000000000)
        × (r.provider_msg_id ≡ message_id texts service outside (some "m1") none)
        × (r.retry_count ≡ 0))
    × (w'.attempts
        ≡ record (attempt_of texts service outside waiting) {
          status = "success";
          provider_msg_id = some "m1";
        }
          ∷ [])
    × (w'.breakers "sms" ≡ some (record_success (asked outside breaker).0))
    × (statuses w'.events ≡ "processing" ∷ "delivered" ∷ [])
    × (w'.queues ≡ world.queues)
    × (w'.dead_letters ≡ [])
unfolding breaker
process_delivers_example =
    process_delivers texts service takes outside "xxxx" waiting breaker world (some "m1")
      (world-IsOpen outside refl refl) (unfold breaker_allow new in refl)
      (unfold limiter_allow new_limiter sliding_window_script in refl) refl refl refl

process_fails_example :
    let (reply, w') = process texts service fails_to_send outside "xxxx" world in
    (reply ≡ err (foreign "timeout"))
    × IsCharged texts service outside
        (foreign "timeout")
        (started texts service fails_to_send outside waiting)
        []
        w'
    × (w'.attempts
        ≡ record (attempt_of texts service outside waiting) {
          status = "failure";
          error_message = some "timeout";
        }
          ∷ [])
    × (w'.breakers "sms" ≡ some (record_failure 2000000000 (asked outside breaker).0))
    × (w'.metrics ≡ failure ∷ [])
    × (w'.queues ≡ world.queues)
unfolding breaker
process_fails_example =
    process_fails texts service fails_to_send outside "xxxx" waiting breaker world
      (foreign "timeout") (world-IsOpen outside refl refl) (unfold breaker_allow new in refl)
      (unfold limiter_allow new_limiter sliding_window_script in refl) refl refl refl refl

-- A service whose limiter lets nothing through.
abbrev pub shut : DeliveryService
shut = record service { limiter = record { limit_per_sec = 0; window_ms = 1000 } }

process_stranded_example :
    let (reply, w') = process texts service takes limiter_down "xxxx" world in
    let e = wrapped "rate limit script: " (foreign "connection refused") "" in
    (reply ≡ err e)
    × ((r : Notification) × (find_row 3 w'.rows ≡ some r)
        × (r.status ≡ processing)
        × (r.retry_count ≡ 0))
    × (w'.queues ≡ world.queues)
    × (w'.attempts ≡ [])
    × (w'.dead_letters ≡ [])
    × (w'.breakers "sms" ≡ some (asked limiter_down breaker).0)
unfolding breaker
process_stranded_example =
    process_stranded texts service takes limiter_down "xxxx" waiting breaker world
      (wrapped "rate limit script: " (foreign "connection refused") "")
      (world-IsOpen limiter_down refl refl) (unfold breaker_allow new in refl)
      (unfold limiter_allow in refl)
