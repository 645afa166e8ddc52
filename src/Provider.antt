-- ===== src/Provider.antt =====
-- internal/adapter/provider/webhook.go: Send, from what the HTTP client finds.
pub mod Accepts
mod Tests
use Prim.Native.String.{◌++◌}
use event_driven_notificatio.Prelude.{
  ℕ, String, Bool, true, false, not, ◌||◌, ◌&&◌, Option, none, some, ltb, leb, if◌then◌else◌, pos,
}
use event_driven_notificatio.Domain.Errors.{Error, foreign, wrapped, Result, ok, err, panics}
use event_driven_notificatio.Config.{int_to_str}
use event_driven_notificatio.Service.World.{Reply, responded, refused}

-- port.SendResponse
pub record SendResponse : Type 0 where
  pub message_id : String
  pub status : String
  pub timestamp : String

-- What one Send finds: the errors of its steps, the provider's status and body, the body's value if it
-- unmarshals, and the clock's text.
pub record Exchange : Type 0 where
  pub marshal_fails : Option Error
  pub create_fails : Option Error
  pub send_fails : Option Error
  pub read_fails : Option Error
  pub status_code : ℕ
  pub body : String
  pub decoded : Option SendResponse
  pub now_text : String

-- resp.StatusCode < 200 || resp.StatusCode >= 300
abbrev pub is_bad_status : ℕ → Bool
is_bad_status code = ltb code 200 || leb 300 code

unfoldable pub sent_response : String → Option SendResponse → SendResponse
sent_response now_text none = record { message_id = ""; status = "accepted"; timestamp = now_text }
sent_response now_text (some r) = r

-- Send, from a response that is read
unfoldable pub judged : Exchange → Result SendResponse
unfolding sent_response
judged x =
    if is_bad_status x.status_code
    then err (
        foreign
          ("provider returned status " ++ (int_to_str (pos x.status_code) ++ (": " ++ x.body))))
    else ok (sent_response x.now_text x.decoded)

-- The error of a step, or the rest.
abbrev pub step_or {ℓ} : {A : Type ℓ} → Option Error → String → Result A → Result A
step_or none prefix rest = rest
step_or (some e) prefix rest = err (wrapped prefix e "")

-- WebhookProvider.Send
unfoldable pub send : Exchange → Result SendResponse
unfolding judged
send x = step_or x.marshal_fails "marshal request: " (
    step_or x.create_fails "create request: "
      (step_or x.send_fails "send request: " (step_or x.read_fails "read response: " (judged x))))

-- What the delivery service is told.
unfoldable pub reply_of : Result SendResponse → Reply
reply_of (ok r) = responded (some r.message_id)
reply_of (err e) = refused e
reply_of panics = refused (foreign "panic")
