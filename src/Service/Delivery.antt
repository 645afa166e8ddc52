-- ===== src/Service/Delivery.antt =====
-- internal/service/delivery.go: Process, handleRetry and publishEvent as functions on the world. Log
-- lines are left out; the notification that Go changes through its pointer is passed on.
pub mod PutBacks
pub mod Stages
pub mod Charge
pub mod Outcomes
pub mod Replies
pub mod Retries
pub mod Trials
pub mod Steps
pub mod Frame
pub mod Cancelling
use Prim.Native.String.{◌++◌ as append}
use event_driven_notificatio.Prelude.{
  ℕ, ◌+◌, ◌-◌, ◌*◌, ◌/◌, ◌^◌, String, Bool, true, false, Option, none, some, List, [], ◌∷◌, ◌++◌,
  leb, str_eq, if◌then◌else◌,
}
use event_driven_notificatio.Domain.Errors.{
  Error, sentinel, wrapped, message, circuit_open, rate_limited, Result, ok, err, panics,
}
use event_driven_notificatio.Domain.Notification.{
  Uuid, Time, Channel, channel_sms, channel_email, channel_push, Status, queued, processing,
  delivered, failed, status_text, is_final, Notification, DeliveryAttempt, DeadLetterEntry,
}
use event_driven_notificatio.Breaker.{
  CircuitBreaker, new, allow as breaker_allow, record_success, record_failure,
}
use event_driven_notificatio.RateLimit.{Limiter, allow as limiter_allow}
use event_driven_notificatio.Queue.{QueueMessage, enqueue}
use event_driven_notificatio.Postgres.Notifications.{get_by_id, update}
use event_driven_notificatio.Postgres.Records.{create_attempt, create_dead_letter}
use event_driven_notificatio.Service.World.{
  UuidText, StatusEvent, delivery, failure, SendRequest, Reply, responded, refused, World, Outside,
  loading, marking_processing, announcing_processing, asking_breaker, asking_limiter, requeueing,
  marking_queued, send_start, send_end, logging_attempt, recording_failure, taking_sent_at,
  marking_delivered, announcing_delivered, planning_retry, marking_failed, burying,
  announcing_failed,
}
use event_driven_notificatio.Service.Backoff.{next_retry}

-- DeliveryConfig
pub record DeliveryConfig : Type 0 where
  pub max_retries : ℕ
  pub base_delay : ℕ
  pub max_delay : ℕ

-- The fields of DeliveryService that it does not change; the rest are the world's.
pub record DeliveryService : Type 0 where
  pub limiter : Limiter
  pub max_retries : ℕ
  pub base_delay : ℕ
  pub max_delay : ℕ

-- The map of breakers; a missing key is a nil pointer.
unfoldable pub new_breakers : Channel → Option CircuitBreaker
unfolding new
new_breakers c =
    if str_eq c channel_sms
    then some (new 5 3 3 (30 * 10 ^ 9))
    else if str_eq c channel_email
    then some (new 5 3 3 (30 * 10 ^ 9))
    else if str_eq c channel_push
    then some (new 5 3 3 (30 * 10 ^ 9))
    else none

-- NewDeliveryService
unfoldable pub new_delivery_service :
    Limiter → DeliveryConfig → DeliveryService × (Channel → Option CircuitBreaker)
unfolding new_breakers
new_delivery_service limiter cfg = (
  record {
    limiter = limiter;
    max_retries = cfg.max_retries;
    base_delay = cfg.base_delay;
    max_delay = cfg.max_delay;
  },
  new_breakers,
)

-- GetBreakers
unfoldable pub get_breakers : World → Channel → Option CircuitBreaker
get_breakers w = w.breakers

batch_text : UuidText → Option Uuid → String
batch_text u none = ""
batch_text u (some id) = u.format id

or_empty : Option String → String
or_empty none = ""
or_empty (some s) = s

-- The event that publishEvent builds.
unfoldable pub status_event : UuidText → Time → Notification → StatusEvent
unfolding batch_text or_empty
status_event u now n = record {
  notification_id = u.format n.id;
  batch_id = batch_text u n.batch_id;
  status = status_text n.status;
  channel = n.channel;
  timestamp = now / 10 ^ 9;
  error = or_empty n.error_message;
}

-- publishEvent
unfoldable pub publish_event : UuidText → Time → Notification → World → World
unfolding status_event
publish_event u now n w = record w { events = w.events ++ status_event u now n ∷ [] }

-- `_ = s.notifRepo.Update(ctx, n)`: the notification with its new `UpdatedAt`, and the world.
unfoldable pub save : Option Error → Time → Notification → World → Notification × World
unfolding update
save fault now n w =
    let (reply, n', rows') = update fault now n w.rows in (n', record w { rows = rows' })

unfoldable pub put_breaker : Channel → CircuitBreaker → World → World
put_breaker channel cb w = record w {
  breakers = λ c. if str_eq c channel then some cb else w.breakers c;
}

module _ (u : UuidText) (s : DeliveryService) (o : Outside) where
  -- handleRetry, from `n.Status = domain.StatusFailed` to its return, for the dead letters
  unfoldable pub move_to_dead_letters : Error → Notification → World → World
  unfolding publish_event save create_dead_letter
  move_to_dead_letters e n w =
      let (n', w') =
        save (o.fails marking_failed) (o.clock marking_failed) (record n { status = failed }) w in
      let entry : DeadLetterEntry = record {
        id = o.dead_letter_id;
        notification_id = n'.id;
        reason = "max retries exceeded";
        last_error = some (message e);
        payload =
            ("channel", n'.channel) ∷ ("recipient", n'.recipient) ∷ ("content", n'.content) ∷ [];
        created_at = o.clock burying;
        reprocessed_at = none;
      } in
      let (reply, letters) = create_dead_letter (o.fails burying) entry w'.dead_letters in
      publish_event u (o.clock announcing_failed) n' (record w' { dead_letters = letters })

  -- handleRetry, the rest
  unfoldable pub plan_retry : Notification → World → World
  unfolding publish_event save next_retry
  plan_retry n w =
      let at =
        next_retry s.base_delay s.max_delay o.random (o.clock planning_retry) n.retry_count in
      let (n', w') =
        save (o.fails marking_failed) (o.clock marking_failed)
          (record n { status = failed; next_retry_at = some at }) w in
      publish_event u (o.clock announcing_failed) n' w'

  -- handleRetry
  unfoldable pub handle_retry : Error → Notification → World → World
  unfolding move_to_dead_letters plan_retry
  handle_retry e n w =
      let n' : Notification = record n {
        retry_count = n.retry_count + 1;
        error_message = some (message e);
      } in
      if leb s.max_retries n'.retry_count then move_to_dead_letters e n' w else plan_retry n' w

  -- the attempt, before its outcome is known
  unfoldable pub attempt_of : Notification → DeliveryAttempt
  attempt_of n = record {
    id = o.attempt_id;
    notification_id = n.id;
    attempt_number = n.retry_count + 1;
    status = "";
    provider_msg_id = none;
    status_code = none;
    response_body = none;
    error_message = none;
    duration_ms = (o.clock send_end - o.clock send_start) / 10 ^ 6;
    created_at = o.clock logging_attempt;
  }

  -- `_ = s.attemptRepo.Create(ctx, attempt)`
  unfoldable pub log_attempt : DeliveryAttempt → World → World
  unfolding create_attempt
  log_attempt a w = record w {
    attempts = (create_attempt (o.fails logging_attempt) a w.attempts).1;
  }

  -- `if resp != nil { n.ProviderMsgID = &resp.MessageID }`
  unfoldable pub message_id : Option String → Option String → Option String
  message_id none before = before
  message_id (some id) before = some id

  -- the end of Process, from the provider's reply
  unfoldable pub settle : Reply → CircuitBreaker → Notification → World → Result (Unit {0}) × World
  unfolding attempt_of log_attempt put_breaker handle_retry save publish_event message_id
  settle (refused e) cb n w =
      let w1 =
        log_attempt (record (attempt_of n) { status = "failure"; error_message = some (message e) })
          w in
      let w2 = put_breaker n.channel (record_failure (o.clock recording_failure) cb) w1 in
      (err e, handle_retry e n (record w2 { metrics = w2.metrics ++ failure ∷ [] }))
  settle (responded id) cb n w =
      let w1 = record w { metrics = w.metrics ++ delivery (attempt_of n).duration_ms ∷ [] } in
      let w2 =
        log_attempt (record (attempt_of n) { status = "success"; provider_msg_id = id }) w1 in
      let w3 = put_breaker n.channel (record_success cb) w2 in
      let (n', w4) =
        save (o.fails marking_delivered) (o.clock marking_delivered)
          (record n {
            status = delivered;
            sent_at = some (o.clock taking_sent_at);
            provider_msg_id = message_id id n.provider_msg_id;
          })
          w3 in
      (ok tt, publish_event u (o.clock announcing_delivered) n' w4)

  -- Process, when the limiter refuses
  unfoldable pub put_back : Notification → World → Result (Unit {0}) × World
  unfolding save enqueue
  put_back n w =
      let msg : QueueMessage = record {
        notification_id = u.format n.id;
        channel = n.channel;
        priority = n.priority;
        trace_parent = "";
      } in
      let (reply, q) = enqueue (o.fails requeueing) (o.clock requeueing / 10 ^ 6) msg w.queues in
      let (n', w') =
        save (o.fails marking_queued) (o.clock marking_queued) (record n { status = queued })
          (record w { queues = q }) in
      (err (sentinel rate_limited), w')

module _ (u : UuidText) (s : DeliveryService) (provider : SendRequest → Reply) (o : Outside) where
  unfoldable pub send_request : Notification → SendRequest
  send_request n = record { to = n.recipient; channel = n.channel; content = n.content }

  -- Process, from the limiter's answer
  unfoldable pub limited :
      Result Bool → CircuitBreaker → Notification → World → Result (Unit {0}) × World
  unfolding put_back settle send_request
  limited (err e) cb n w = (err e, w)
  limited panics cb n w = (panics, w)
  limited (ok false) cb n w = put_back u s o n w
  limited (ok true) cb n w = settle u s o (provider (send_request n)) cb n w

  -- Process, from the breaker of the channel
  unfoldable pub guarded : Option CircuitBreaker → Notification → World → Result (Unit {0}) × World
  unfolding limited handle_retry put_breaker
  guarded none n w = (panics, w)
  guarded (some cb) n w =
      let (cb', allowed) = breaker_allow (o.clock asking_breaker) cb in
      let w1 = put_breaker n.channel cb' w in
      let (granted, keys) =
        limiter_allow s.limiter (o.fails asking_limiter) (o.clock asking_limiter / 10 ^ 6)
          o.request_id n.channel w1.windows in
      let rest = limited granted cb' n (record w1 { windows = keys }) in
      if allowed
      then rest
      else (err (sentinel circuit_open), handle_retry u s o (sentinel circuit_open) n w1)

  -- Process, from the result of the first Update
  unfoldable pub marked : Result (Unit {0}) → Notification → World → Result (Unit {0}) × World
  unfolding guarded publish_event
  marked (err e) n w = (err (wrapped "update status: " e ""), w)
  marked panics n w = (panics, w)
  marked (ok _) n w =
      let w1 = publish_event u (o.clock announcing_processing) n w in
      guarded (w1.breakers n.channel) n w1

  -- Process, from the notification that was loaded
  unfoldable pub loaded : Result Notification → World → Result (Unit {0}) × World
  unfolding marked update
  loaded (err e) w = (err (wrapped "get notification: " e ""), w)
  loaded panics w = (panics, w)
  loaded (ok n) w =
      let (reply, n', rows') =
        update (o.fails marking_processing) (o.clock marking_processing)
          (record n { status = processing }) w.rows in
      let rest = marked reply n' (record w { rows = rows' }) in
      if is_final n.status then (ok tt, w) else rest

  parsed : Option Uuid → String → World → Result (Unit {0}) × World
  unfolding loaded
  parsed none text w = (err (wrapped "parse notification ID: " (u.parse_error text) ""), w)
  parsed (some id) text w = loaded (get_by_id (o.fails loading) id w.rows) w

  -- DeliveryService.Process
  unfoldable pub process : String → World → Result (Unit {0}) × World
  unfolding parsed
  process text w = parsed (u.parse text) text w
