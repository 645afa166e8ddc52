-- ===== src/Http/Notifications/Answers.antt =====
-- What the answers of internal/adapter/handler/notification.go tell of the store.
use Prim.Native.String.{String}
use mathlib.Core.Option
use mathlib.Core.List.{append-nil}
use event_driven_notificatio.Prelude.{
  ℕ, true, ◌==◌, ◌||◌, ◌≡◌, ◌≢◌, refl, sym, ap, ◌⊎◌, inl, inr, Option, none, some, List, [], ◌∷◌,
  ◌++◌, Bool-cases, Bool, str_eq, if◌then◌else◌, arith, ◌∙◌,
}
use event_driven_notificatio.Domain.Errors.{Sentinel, is, message, Result, ok, err, panics}
use event_driven_notificatio.Domain.Notification.{Uuid, Time, Notification, can_cancel}
use event_driven_notificatio.Postgres.Notifications.{Rows, find_row}
use event_driven_notificatio.Postgres.Notifications.Table.{IsTable}
use event_driven_notificatio.Postgres.Notifications.Cancel.{
  cancel_answer, cancel_outcome, cancel_by_id_lem,
}
use event_driven_notificatio.Service.World.{UuidText, StatusEvent}
use event_driven_notificatio.Service.Templates.{Engine}
use event_driven_notificatio.Service.Intake.{
  CreateNotificationRequest, cancelled_event, cancel_notification, announced,
}
use event_driven_notificatio.Service.Create.{Store, CreateOutside, create_notification}
use event_driven_notificatio.Service.Create.Answers.{
  IsHonest, IsRepeat, IsNew, create_notification-IsHonest,
}
use event_driven_notificatio.Http.Response.{
  HttpResponse, Handled, wrote, panicked, refusal, success, error_case, write_error, answer,
  recovered,
}
use event_driven_notificatio.Http.Notifications.{handle_cancel, handle_create}

module _ (u : UuidText) (now : Time) (id : Uuid) where
  -- What a Cancel answers and publishes, from the row that is found under the ID.
  abbrev pub cancel_response : Option Notification → HttpResponse (Unit {0})
  cancel_response none = refusal 404 "resource not found"
  cancel_response (some r) =
      if can_cancel r.status
      then success 200 tt
      else refusal 409 "notification cannot be cancelled in current status"

  abbrev pub cancel_events : Option Notification → List StatusEvent
  cancel_events none = []
  cancel_events (some r) = if can_cancel r.status then cancelled_event u id now ∷ [] else []

  answer-cancel :
      (o : Option Notification) → recovered (answer 200 (cancel_answer o)) ≡ cancel_response o
  unfolding recovered answer write_error error_case
  answer-cancel none = refl
  answer-cancel (some r) = elim (Bool-cases (can_cancel r.status)) [
    | inl y ↦ rw y refl
    | inr k ↦ rw k refl
  ]

  announced-cancel :
      (o : Option Notification) (events : List StatusEvent)
      → announced u (cancel_answer o) id now events ≡ events ++ cancel_events o
  unfolding announced
  announced-cancel none events = sym (append-nil events)
  announced-cancel (some r) events = elim (Bool-cases (can_cancel r.status)) [
    | inl y ↦ rw y refl
    | inr k ↦ rw k (sym (append-nil events))
  ]

  -- On a table and with a database that answers, a PATCH of /{id}/cancel whose ID parses: it answers
  -- 200, makes the row cancelled and publishes one event if the row's status is pending, scheduled
  -- or queued; it answers 409 for a row of another status and 404 for no row, and then leaves the row
  -- and publishes nothing. Other rows stay in every case.
  pub handle_cancel_lem :
      (text : String) (j : Uuid) (rows : Rows) (events : List StatusEvent)
      → u.parse text ≡ some id
      → IsTable rows
      → j ≢ id
      → let (handled, rows', events') = handle_cancel u none none now text rows events in
        (recovered handled ≡ cancel_response (find_row id rows))
        × (find_row id rows' ≡ Option.map (cancel_outcome now) (find_row id rows))
        × (find_row j rows' ≡ find_row j rows)
        × (events' ≡ events ++ cancel_events (find_row id rows))
  unfolding handle_cancel cancel_notification
  handle_cancel_lem text j rows events p t ne =
      let l = cancel_by_id_lem now id j rows t in
      rw p (
        ap (λ r. recovered (answer 200 r)) l.0 ∙ answer-cancel (find_row id rows),
        l.1,
        l.2 ne,
        ap (λ r. announced u r id now events) l.0 ∙ announced-cancel (find_row id rows) events,
      )

-- A status of writeError or of a body that is refused.
abbrev pub is_failure : ℕ → Bool
is_failure status = status == 400 || (status == 404 || (status == 409 || status == 500))

error_case-is_failure :
    (A : Type 0) (f : Sentinel → Bool) (text : String)
    → is_failure (error_case {A = A} f text).status ≡ true
unfolding error_case
error_case-is_failure A f text = ground arith

module _ (u : UuidText) (engine : Engine) (o : CreateOutside) where
  -- 202 with a notification that was found by its key or is new, as the store tells; or 500 for a
  -- panic, or a failure's status, and the store stays.
  abbrev pub TellsStore : Store → Handled Notification → Store → Type 0
  TellsStore st handled st' =
      ((n : Notification) × (recovered handled ≡ success 202 n)
        × (IsRepeat u engine o st n st' ⊎ IsNew u engine o st n st'))
      ⊎ ((st' ≡ st)
          × (((handled ≡ panicked) × (recovered handled ≡ refusal 500 "internal server error"))
              ⊎ ((r : HttpResponse Notification) × (handled ≡ wrote r)
                  × (recovered handled ≡ r)
                  × (is_failure r.status ≡ true))))

  answer-TellsStore :
      (st : Store) (r : Result Notification × Store)
      → IsHonest u engine o st r
      → TellsStore st (answer 202 r.0) r.1
  unfolding answer recovered write_error
  answer-TellsStore st (ok n, st') h = inl (n, refl, h)
  answer-TellsStore st (err e, st') h =
      inr
        (h, inr (write_error e, refl, refl, error_case-is_failure Notification (is e) (message e)))
  answer-TellsStore st (panics, st') h = inr (h, inl (refl, refl))

  -- A POST of a notification, whatever its body. Either it answers 202 and a notification: one that an
  -- idempotency key finds in the table, and the store is as it was; or a new one, which is appended to
  -- the rows and told by one event with its ID and status, and which is either scheduled, with the
  -- queues as they were, or queued: its message has been handed to Enqueue, and its row to UpdateStatus.
  -- Or it answers 500 for a panic, or 400, 404, 409 or 500 for a failure, and the store is as it was.
  pub handle_create-TellsStore :
      (body : Option CreateNotificationRequest) (st : Store)
      → let (handled, st') = handle_create u engine o body st in TellsStore st handled st'
  unfolding handle_create
  handle_create-TellsStore none st =
      inr (refl, inr (refusal 400 _, refl, unfold recovered in refl, refl))
  handle_create-TellsStore (some req) st = elim (Bool-cases (str_eq req.recipient "")) [
    | inl y ↦ rw y (inr (refl, inr (refusal 400 _, refl, unfold recovered in refl, refl)))
    | inr k ↦ rw k (
        answer-TellsStore st (create_notification u engine o req st)
          (create_notification-IsHonest u engine o req st))
  ]
