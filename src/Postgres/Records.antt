-- ===== src/Postgres/Records.antt =====
-- internal/adapter/repository/postgres/delivery_attempt.go and dead_letter.go, on lists of rows. A
-- failure of the database, a constraint's refusal included, is an argument of the call.
use event_driven_notificatio.Prelude.{
  Option, none, some, List, [], ◌∷◌, ◌++◌, filterb, ◌==◌, if◌then◌else◌, sort_by, ℤ,
}
use event_driven_notificatio.Domain.Errors.{Error, Result, ok, err}
use event_driven_notificatio.Postgres.Pages.{page_of, page_size_of, page_rows}
use event_driven_notificatio.Domain.Notification.{Uuid, Time, DeliveryAttempt, DeadLetterEntry}

-- DeliveryAttemptRepo.Create
unfoldable pub create_attempt :
    Option Error → DeliveryAttempt → List DeliveryAttempt → Result (Unit {0}) × List DeliveryAttempt
create_attempt (some e) a rows = (err e, rows)
create_attempt none a rows = (ok tt, rows ++ a ∷ [])

-- DeliveryAttemptRepo.GetByNotificationID: ORDER BY attempt_number.
unfoldable pub get_by_notification_id :
    Option Error → Uuid → List DeliveryAttempt → Result (List DeliveryAttempt)
get_by_notification_id (some e) id rows = err e
get_by_notification_id none id rows = ok (
    sort_by (λ (a : DeliveryAttempt). a.attempt_number)
      (filterb (λ a. a.notification_id == id) rows))

-- The columns of the INSERT of DeadLetterRepo.Create; `reprocessed_at` is NULL.
abbrev pub dead_letter_row : DeadLetterEntry → DeadLetterEntry
dead_letter_row e = record e { reprocessed_at = none }

-- DeadLetterRepo.Create
unfoldable pub create_dead_letter :
    Option Error → DeadLetterEntry → List DeadLetterEntry → Result (Unit {0}) × List DeadLetterEntry
create_dead_letter (some e) entry rows = (err e, rows)
create_dead_letter none entry rows = (ok tt, rows ++ dead_letter_row entry ∷ [])

-- DeadLetterRepo.List: ORDER BY created_at DESC LIMIT OFFSET, of rows in the order in which it meets
-- them.
unfoldable pub list_dead_letters :
    Option Error → ℤ → ℤ → List DeadLetterEntry → Result (List DeadLetterEntry)
unfolding page_rows page_of page_size_of
list_dead_letters (some e) page page_size rows = err e
list_dead_letters none page page_size rows =
    page_rows (λ (e : DeadLetterEntry). e.created_at) (page_of page) (page_size_of page_size) rows

reprocessed : Uuid → Time → List DeadLetterEntry → List DeadLetterEntry
reprocessed id now [] = []
reprocessed id now (e ∷ rows) =
    (if e.id == id then record e { reprocessed_at = some now } else e) ∷ reprocessed id now rows

-- DeadLetterRepo.MarkReprocessed
unfoldable pub mark_reprocessed :
    Option Error → Time → Uuid → List DeadLetterEntry → Result (Unit {0}) × List DeadLetterEntry
unfolding reprocessed
mark_reprocessed (some e) now id rows = (err e, rows)
mark_reprocessed none now id rows = (ok tt, reprocessed id now rows)
