-- ===== src/Domain/Errors.antt =====
-- internal/domain/errors.go, and the errors that `fmt.Errorf` builds from them.
use event_driven_notificatio.Prelude.{ℕ, String, Bool, false, ◌==◌}
use Prim.Native.String.{◌++◌}

-- The sentinel values of errors.go.
pub data Sentinel : Type 0 where
  not_found duplicate_id_key invalid_channel invalid_priority invalid_status : Sentinel
  cannot_cancel batch_too_large content_too_long empty_recipient empty_content : Sentinel
  template_not_found template_inactive missing_template_vars circuit_open : Sentinel
  rate_limited schedule_in_past : Sentinel

abbrev pub sentinel_text : Sentinel → String
sentinel_text not_found = "resource not found"
sentinel_text duplicate_id_key = "duplicate idempotency key"
sentinel_text invalid_channel = "invalid channel: must be sms, email, or push"
sentinel_text invalid_priority = "invalid priority: must be high, normal, or low"
sentinel_text invalid_status = "invalid notification status"
sentinel_text cannot_cancel = "notification cannot be cancelled in current status"
sentinel_text batch_too_large = "batch size exceeds maximum of 1000"
sentinel_text content_too_long = "content exceeds maximum length for channel"
sentinel_text empty_recipient = "recipient is required"
sentinel_text empty_content = "content is required"
sentinel_text template_not_found = "template not found"
sentinel_text template_inactive = "template is not active"
sentinel_text missing_template_vars = "missing required template variables"
sentinel_text circuit_open = "circuit breaker is open for this channel"
sentinel_text rate_limited = "rate limit exceeded for channel"
sentinel_text schedule_in_past = "scheduled_at must be in the future"

-- An `error` value: a sentinel, an error of a library with its message, or one that
-- `fmt.Errorf` wraps by `%w` between a text before it and a text behind it.
pub data Error : Type 0 where
  sentinel : Sentinel → Error
  foreign : String → Error
  wrapped : String → Error → String → Error

-- err.Error()
abbrev pub message : Error → String
message (sentinel s) = sentinel_text s
message (foreign s) = s
message (wrapped before e after) = before ++ (message e ++ after)

-- A sentinel's place in errors.go: the pointers that `errors.Is` compares are distinct.
abbrev pub place : Sentinel → ℕ
place not_found = 0
place duplicate_id_key = 1
place invalid_channel = 2
place invalid_priority = 3
place invalid_status = 4
place cannot_cancel = 5
place batch_too_large = 6
place content_too_long = 7
place empty_recipient = 8
place empty_content = 9
place template_not_found = 10
place template_inactive = 11
place missing_template_vars = 12
place circuit_open = 13
place rate_limited = 14
place schedule_in_past = 15

-- errors.Is(err, target): the target is looked for through the wrapping.
abbrev pub is : Error → Sentinel → Bool
is (sentinel s) t = place s == place t
is (foreign m) t = false
is (wrapped before e after) t = is e t

-- What a Go function returns: its value, an error, or no return at all (a panic).
pub data Result {ℓ} (A : Type ℓ) : Type ℓ where
  ok : A → Result A
  err : Error → Result A
  panics : Result A

-- A call whose error the caller returns at once.
infixl 5 ◌>>=◌ ◌>>◌
abbrev pub ◌>>=◌ {ℓ κ} : {A : Type ℓ} {B : Type κ} → Result A → (A → Result B) → Result B
ok a >>= f = f a
err e >>= f = err e
panics >>= f = panics

abbrev pub ◌>>◌ {ℓ} : {B : Type ℓ} → Result (Unit {0}) → Result B → Result B
m >> k = m >>= λ _. k

-- What holds of every answer that is no error.
abbrev pub OfAnswer {ℓ κ} : {A : Type ℓ} → (A → Type κ) → Result A → Type κ
OfAnswer P (ok a) = P a
OfAnswer P (err e) = Unit
OfAnswer P panics = Unit

pub bind-OfAnswer {ℓ κ} :
    {A B : Type ℓ} (P : A → Type κ) (Q : B → Type κ) (r : Result A) (f : A → Result B)
    → OfAnswer P r
    → ((a : A) → P a → OfAnswer Q (f a))
    → OfAnswer Q (r >>= f)
bind-OfAnswer P Q (ok a) f p k = k a p
bind-OfAnswer P Q (err e) f p k = tt
bind-OfAnswer P Q panics f p k = tt

-- What a call leaves that returns a value; and that it returns one.
abbrev pub Returns {ℓ} : {A : Type ℓ} → (A → Type 0) → Result A → Type 0
Returns P (ok a) = P a
Returns P (err e) = ⊥
Returns P panics = ⊥

pub bind-Returns {ℓ} :
    {A B : Type ℓ} (P : A → Type 0) (Q : B → Type 0) (r : Result A) (f : A → Result B)
    → Returns P r
    → ((a : A) → P a → Returns Q (f a))
    → Returns Q (r >>= f)
bind-Returns P Q (ok a) f p k = k a p
bind-Returns P Q (err e) f p k = absurd p
bind-Returns P Q panics f p k = absurd p

pub both-Returns :
    {A : Type 0} (P Q : A → Type 0) (r : Result A)
    → Returns P r
    → Returns Q r
    → Returns (λ a. P a × Q a) r
both-Returns P Q (ok a) p q = (p, q)
both-Returns P Q (err e) p q = p
both-Returns P Q panics p q = p

pub weaken-Returns :
    {A : Type 0} (P Q : A → Type 0) (r : Result A)
    → ((a : A) → P a → Q a)
    → Returns P r
    → Returns Q r
weaken-Returns P Q (ok a) k p = k a p
weaken-Returns P Q (err e) k p = p
weaken-Returns P Q panics k p = p
