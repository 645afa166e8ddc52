-- ===== src/Http/Response/Statuses.antt =====
-- The statuses of writeError of internal/adapter/handler/response.go, by the sentinel in an error.
use Prim.Native.String.{String}
use event_driven_notificatio.Prelude.{
  ℕ, ◌≡◌, refl, Bool, false, Option, none, some, ◌==◌, if◌then◌else◌, ap, ◌∙◌,
}
use mathlib.Core.Path.{fun_ext}
use event_driven_notificatio.Domain.Errors
use event_driven_notificatio.Domain.Errors.{
  Error, Sentinel, sentinel, foreign, wrapped, is, place, message,
}
use event_driven_notificatio.Http.Response.{HttpResponse, refusal, error_case, write_error}

-- The sentinel behind the wrapping, if there is one.
abbrev pub root : Error → Option Sentinel
root (sentinel s) = some s
root (foreign m) = none
root (wrapped before e after) = root e

-- The status that each sentinel calls for.
abbrev pub status_of : Option Sentinel → ℕ
status_of none = 500
status_of (some Errors.not_found) = 404
status_of (some Errors.duplicate_id_key) = 409
status_of (some Errors.invalid_channel) = 400
status_of (some Errors.invalid_priority) = 400
status_of (some Errors.invalid_status) = 500
status_of (some Errors.cannot_cancel) = 409
status_of (some Errors.batch_too_large) = 400
status_of (some Errors.content_too_long) = 400
status_of (some Errors.empty_recipient) = 400
status_of (some Errors.empty_content) = 400
status_of (some Errors.template_not_found) = 500
status_of (some Errors.template_inactive) = 400
status_of (some Errors.missing_template_vars) = 400
status_of (some Errors.circuit_open) = 500
status_of (some Errors.rate_limited) = 500
status_of (some Errors.schedule_in_past) = 400

-- A client is told what its own mistake was, and nothing of an internal error.
abbrev pub told : ℕ → String → String
told status text = if status == 500 then "internal server error" else text

abbrev is_root : Option Sentinel → Sentinel → Bool
is_root none t = false
is_root (some s) t = place s == place t

is-root : (e : Error) (t : Sentinel) → is e t ≡ is_root (root e) t
is-root (sentinel s) t = refl
is-root (foreign m) t = refl
is-root (wrapped before e after) t = is-root e t

module _ {A : Type 0} where
  by_status : Option Sentinel → String → HttpResponse A
  by_status o text = refusal (status_of o) (told (status_of o) text)

  error_case_lem :
      (o : Option Sentinel) (text : String) → error_case (is_root o) text ≡ by_status o text
  unfolding error_case by_status
  error_case_lem none text = refl
  error_case_lem (some Errors.not_found) text = refl
  error_case_lem (some Errors.duplicate_id_key) text = refl
  error_case_lem (some Errors.invalid_channel) text = refl
  error_case_lem (some Errors.invalid_priority) text = refl
  error_case_lem (some Errors.invalid_status) text = refl
  error_case_lem (some Errors.cannot_cancel) text = refl
  error_case_lem (some Errors.batch_too_large) text = refl
  error_case_lem (some Errors.content_too_long) text = refl
  error_case_lem (some Errors.empty_recipient) text = refl
  error_case_lem (some Errors.empty_content) text = refl
  error_case_lem (some Errors.template_not_found) text = refl
  error_case_lem (some Errors.template_inactive) text = refl
  error_case_lem (some Errors.missing_template_vars) text = refl
  error_case_lem (some Errors.circuit_open) text = refl
  error_case_lem (some Errors.rate_limited) text = refl
  error_case_lem (some Errors.schedule_in_past) text = refl

  -- writeError answers the status that the error's sentinel calls for, however often the error is
  -- wrapped: 404, 409 or 400 with the error's text for a mistake of the client, and 500 with a fixed
  -- text, which tells nothing of the error, for any other error.
  pub write_error_lem :
      (e : Error)
      → write_error {A = A} e ≡ refusal (status_of (root e)) (told (status_of (root e)) (message e))
  unfolding write_error by_status
  write_error_lem e =
      ap (λ (f : Sentinel → Bool). error_case f (message e)) (fun_ext (is-root e))
      ∙ error_case_lem (root e) (message e)
