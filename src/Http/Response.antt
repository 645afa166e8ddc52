-- ===== src/Http/Response.antt =====
-- internal/adapter/handler/response.go, and middleware/recovery.go around a handler.
pub mod Statuses
use Prim.Native.String.{String}
use event_driven_notificatio.Prelude.{ℕ, Bool, ◌||◌, if◌then◌else◌}
use event_driven_notificatio.Domain.Errors.{
  Error, Sentinel, is, message, Result, ok, err, panics, not_found, cannot_cancel, batch_too_large,
  invalid_channel, invalid_priority, empty_recipient, empty_content, content_too_long,
  schedule_in_past, missing_template_vars, template_inactive, duplicate_id_key,
}

-- The JSON value that is written: an ErrorResponse with its `error`, or another value.
pub data Body {ℓ} (A : Type ℓ) : Type ℓ where
  error_response : String → Body A
  content : A → Body A

pub record HttpResponse {ℓ} (A : Type ℓ) : Type ℓ where
  pub status : ℕ
  pub body : Body A

-- What a handler leaves: a response, or a panic.
pub data Handled {ℓ} (A : Type ℓ) : Type ℓ where
  wrote : HttpResponse A → Handled A
  panicked : Handled A

-- The errors of the fourth case of writeError; `is_error` is `errors.Is` on the error.
unfoldable pub is_bad_request : (Sentinel → Bool) → Bool
is_bad_request is_error =
    is_error invalid_channel
    || (is_error invalid_priority
        || (is_error empty_recipient
            || (is_error empty_content
                || (is_error content_too_long
                    || (is_error schedule_in_past
                        || (is_error missing_template_vars || is_error template_inactive))))))

module _ {A : Type 0} where
  -- writeJSON of an ErrorResponse
  abbrev pub refusal : ℕ → String → HttpResponse A
  refusal code text = record { status = code; body = error_response text }

  -- writeJSON of a result
  abbrev pub success : ℕ → A → HttpResponse A
  success code a = record { status = code; body = content a }

  -- The cases of writeError.
  unfoldable pub error_case : (Sentinel → Bool) → String → HttpResponse A
  unfolding is_bad_request
  error_case is_error text =
      if is_error not_found
      then refusal 404 text
      else if is_error cannot_cancel
      then refusal 409 text
      else if is_error batch_too_large
      then refusal 400 text
      else if is_bad_request is_error
      then refusal 400 text
      else if is_error duplicate_id_key
      then refusal 409 text
      else refusal 500 "internal server error"

  -- writeError
  unfoldable pub write_error : Error → HttpResponse A
  unfolding error_case
  write_error e = error_case (is e) (message e)

  -- The end of a handler: writeError, or the result under a status.
  unfoldable pub answer : ℕ → Result A → Handled A
  unfolding write_error
  answer code (ok a) = wrote (success code a)
  answer code (err e) = wrote (write_error e)
  answer code panics = panicked

  -- Recovery: a panic is answered as an internal error.
  unfoldable pub recovered : Handled A → HttpResponse A
  recovered (wrote r) = r
  recovered panicked = refusal 500 "internal server error"
