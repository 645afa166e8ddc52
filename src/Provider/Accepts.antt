-- ===== src/Provider/Accepts.antt =====
-- When Send of internal/adapter/provider/webhook.go answers no error.
use event_driven_notificatio.Prelude.{
  ◌≤◌, ◌<◌, ◌≡◌, ◌↔◌, refl, sym, String, true, false, Option, none, some, arith, Bool-cases, inl,
  inr,
}
use mathlib.Core.Path.{subst}
use event_driven_notificatio.Domain.Errors.{Error, Result}
use event_driven_notificatio.Service.World.{Reply, responded, refused}
use event_driven_notificatio.Provider.{
  SendResponse, Exchange, is_bad_status, sent_response, judged, step_or, send, reply_of,
}

-- No step fails, and the status is 2xx.
abbrev pub IsTaken : Exchange → Type 0
IsTaken x =
    (x.marshal_fails ≡ none)
    × (x.create_fails ≡ none)
    × (x.send_fails ≡ none)
    × (x.read_fails ≡ none)
    × (200 ≤ x.status_code)
    × (x.status_code < 300)

-- The message ID of the response's body, the empty text if it does not unmarshal.
abbrev pub id_of : Option SendResponse → String
id_of none = ""
id_of (some r) = r.message_id

-- The delivery service is told a success.
abbrev pub IsSuccess : Reply → Type 0
IsSuccess (responded id) = Unit
IsSuccess (refused e) = ⊥

judged-id :
    (x : Exchange)
    → 200 ≤ x.status_code
    → x.status_code < 300
    → reply_of (judged x) ≡ responded (some (id_of x.decoded))
unfolding judged reply_of sent_response
judged-id x l h = let e : is_bad_status x.status_code ≡ false = ground arith in rw e (go x.decoded)
  where
    go :
        (d : Option SendResponse)
        → responded (some (sent_response x.now_text d).message_id) ≡ responded (some (id_of d))
    go none = refl
    go (some r) = refl

bad_refused :
    (x : Exchange) → is_bad_status x.status_code ≡ true → IsSuccess (reply_of (judged x)) → ⊥
unfolding judged reply_of
bad_refused x b = rw b (λ h. h)

judged-IsSuccess :
    (x : Exchange) → IsSuccess (reply_of (judged x)) → (200 ≤ x.status_code) × (x.status_code < 300)
judged-IsSuccess x h = elim (Bool-cases (is_bad_status x.status_code)) [
  | inl y ↦ absurd (bad_refused x y h)
  | inr k ↦ (ground arith, ground arith)
]

step-IsSuccess :
    (f : Option Error) (prefix : String) (r : Result SendResponse)
    → IsSuccess (reply_of (step_or f prefix r))
    → (f ≡ none) × IsSuccess (reply_of r)
unfolding reply_of
step-IsSuccess none prefix r h = (refl, h)
step-IsSuccess (some e) prefix r h = absurd h

taken : (x : Exchange) → IsTaken x → reply_of (send x) ≡ responded (some (id_of x.decoded))
unfolding send
taken x (a, b, c, d, l, h) = rw (a, b, c, d) (judged-id x l h)

-- Send is a success for the delivery service exactly if no step fails and the status is 2xx; the
-- message ID is then the body's, and the empty text if the body does not unmarshal.
pub send-IsSuccess :
    (x : Exchange)
    → IsSuccess (reply_of (send x))
      ↔ (IsTaken x × (reply_of (send x) ≡ responded (some (id_of x.decoded))))
unfolding send
send-IsSuccess x = (
  λ h.
      let (a, h1) = step-IsSuccess x.marshal_fails _ _ h in
      let (b, h2) = step-IsSuccess x.create_fails _ _ h1 in
      let (c, h3) = step-IsSuccess x.send_fails _ _ h2 in
      let (d, h4) = step-IsSuccess x.read_fails _ _ h3 in
      let (l, g) = judged-IsSuccess x h4 in
      let t : IsTaken x = (a, b, c, d, l, g) in (t, taken x t),
  λ t. subst IsSuccess (sym t.1) tt,
)
