-- ===== src/Service/World.antt =====
-- What internal/service/delivery.go works on: the repositories' rows, Redis, the breakers, the
-- metrics and the published events; and what comes from outside the program.
use event_driven_notificatio.Prelude.{ℕ, String, Option, List, ◌≡◌}
use event_driven_notificatio.Domain.Errors.{Error}
use event_driven_notificatio.Domain.Notification.{
  Uuid, Time, Channel, DeliveryAttempt, DeadLetterEntry,
}
use event_driven_notificatio.Breaker.{CircuitBreaker}
use event_driven_notificatio.RateLimit.{Windows}
use event_driven_notificatio.Queue.{Queues}
use event_driven_notificatio.Postgres.Notifications.{Rows}

-- github.com/google/uuid: the text of a UUID parses back to it.
pub record UuidText : Type 0 where
  pub parse : String → Option Uuid
  pub parse_error : String → Error
  pub format : Uuid → String
  pub parse-format : (id : Uuid) → parse (format id) ≡ Option.some id

-- port.StatusEvent; an empty text stands for a field that is left out, and the seconds for the
-- timestamp's text.
pub record StatusEvent : Type 0 where
  pub notification_id : String
  pub batch_id : String
  pub status : String
  pub channel : String
  pub timestamp : ℕ
  pub error : String

-- What a MetricsRecorder is told.
pub data Recorded : Type 0 where
  delivery : ℕ → Recorded
  failure : Recorded

-- port.SendRequest
pub record SendRequest : Type 0 where
  pub to : String
  pub channel : String
  pub content : String

-- What DeliveryProvider.Send returns: a response with its message ID or a nil one, or an error.
pub data Reply : Type 0 where
  responded : Option String → Reply
  refused : Error → Reply

pub record World : Type 0 where
  pub rows : Rows
  pub attempts : List DeliveryAttempt
  pub dead_letters : List DeadLetterEntry
  pub queues : Queues
  pub windows : Windows
  pub breakers : Channel → Option CircuitBreaker
  pub metrics : List Recorded
  pub events : List StatusEvent

-- The places of Process, handleRetry and publishEvent that read the clock or may fail.
pub data Point : Type 0 where
  loading marking_processing announcing_processing asking_breaker asking_limiter : Point
  requeueing marking_queued send_start send_end logging_attempt recording_failure : Point
  taking_sent_at marking_delivered announcing_delivered : Point
  planning_retry marking_failed burying announcing_failed : Point

-- What one call of Process finds: the clock in nanoseconds, the failures of the database and of
-- Redis, the new UUIDs and the draw of `rand.Float64`, which is `random` / 2 ^ 53.
pub record Outside : Type 0 where
  pub clock : Point → Time
  pub fails : Point → Option Error
  pub request_id : String
  pub attempt_id : Uuid
  pub dead_letter_id : Uuid
  pub random : ℕ
