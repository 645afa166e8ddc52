-- ===== src/Domain/Notification.antt =====
-- internal/domain/notification.go. A `uuid.UUID` is a number, a `time.Time` the nanoseconds since
-- the epoch, a value of a JSON map a text or another value held as its text.
use event_driven_notificatio.Prelude.{
  ℕ, String, Bool, true, false, ◌||◌, Option, none, some, List, [], ◌==◌, str_eq, if◌then◌else◌,
}

abbrev pub Uuid : Type 0
Uuid = ℕ

abbrev pub Time : Type 0
Time = ℕ

pub data Value : Type 0 where
  text : String → Value
  other : String → Value

abbrev pub Vars : Type 0
Vars = List (String × Value)

-- `type Channel string`: any text, of which three are valid.
abbrev pub Channel : Type 0
Channel = String

abbrev pub channel_sms : Channel
channel_sms = "sms"

abbrev pub channel_email : Channel
channel_email = "email"

abbrev pub channel_push : Channel
channel_push = "push"

unfoldable pub is_valid : Channel → Bool
is_valid c = str_eq c channel_sms || (str_eq c channel_email || str_eq c channel_push)

-- `type Priority int`
abbrev pub Priority : Type 0
Priority = ℕ

abbrev pub priority_high : Priority
priority_high = 0

abbrev pub priority_normal : Priority
priority_normal = 1

abbrev pub priority_low : Priority
priority_low = 2

unfoldable pub priority_from_string : String → Priority
priority_from_string s =
    if str_eq s "high"
    then priority_high
    else if str_eq s "low"
    then priority_low
    else priority_normal

unfoldable pub priority_string : Priority → String
priority_string p =
    if p == priority_high then "high" else if p == priority_low then "low" else "normal"

-- The statuses that the program writes; the database admits no other.
pub data Status : Type 0 where
  pending scheduled queued processing delivered failed cancelled : Status

pub Status-discrete : Discrete Status
Status-discrete = hlevel

-- string(status)
abbrev pub status_text : Status → String
status_text pending = "pending"
status_text scheduled = "scheduled"
status_text queued = "queued"
status_text processing = "processing"
status_text delivered = "delivered"
status_text failed = "failed"
status_text cancelled = "cancelled"

-- s == t
abbrev pub same_status : Status → Status → Bool
same_status pending pending = true
same_status scheduled scheduled = true
same_status queued queued = true
same_status processing processing = true
same_status delivered delivered = true
same_status failed failed = true
same_status cancelled cancelled = true
same_status _ _ = false

unfoldable pub is_final : Status → Bool
is_final s = same_status s delivered || (same_status s failed || same_status s cancelled)

unfoldable pub can_cancel : Status → Bool
can_cancel s = same_status s pending || (same_status s scheduled || same_status s queued)

pub record Notification : Type 0 where
  pub id : Uuid
  pub batch_id : Option Uuid
  pub idempotency_key : Option String
  pub channel : Channel
  pub recipient : String
  pub subject : String
  pub content : String
  pub priority : Priority
  pub status : Status
  pub scheduled_at : Option Time
  pub sent_at : Option Time
  pub provider_msg_id : Option String
  pub retry_count : ℕ
  pub max_retries : ℕ
  pub next_retry_at : Option Time
  pub metadata : Option Vars
  pub template_id : Option Uuid
  pub template_vars : Option Vars
  pub error_message : Option String
  pub created_at : Time
  pub updated_at : Time

-- NewNotification, with the values of `uuid.New()` and `time.Now().UTC()` as arguments.
unfoldable pub new_notification : Uuid → Time → Channel → String → String → Priority → Notification
new_notification id now channel recipient content priority = record {
  id = id;
  batch_id = none;
  idempotency_key = none;
  channel = channel;
  recipient = recipient;
  subject = "";
  content = content;
  priority = priority;
  status = pending;
  scheduled_at = none;
  sent_at = none;
  provider_msg_id = none;
  retry_count = 0;
  max_retries = 3;
  next_retry_at = none;
  metadata = some [];
  template_id = none;
  template_vars = none;
  error_message = none;
  created_at = now;
  updated_at = now;
}

-- `Status` is "success" or "failure".
pub record DeliveryAttempt : Type 0 where
  pub id : Uuid
  pub notification_id : Uuid
  pub attempt_number : ℕ
  pub status : String
  pub provider_msg_id : Option String
  pub status_code : Option ℕ
  pub response_body : Option String
  pub error_message : Option String
  pub duration_ms : ℕ
  pub created_at : Time

pub record DeadLetterEntry : Type 0 where
  pub id : Uuid
  pub notification_id : Uuid
  pub reason : String
  pub last_error : Option String
  pub payload : List (String × String)
  pub created_at : Time
  pub reprocessed_at : Option Time
