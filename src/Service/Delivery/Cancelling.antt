-- ===== src/Service/Delivery/Cancelling.antt =====
-- Process of internal/service/delivery.go and CancelByID: a cancel before the notification is loaded
-- stops the delivery, one between its load and its Update is lost.
use mathlib.Core.Option
use mathlib.Core.Bool.{false≢true}
use event_driven_notificatio.Prelude.{
  String, ◌≡◌, refl, sym, ap, ◌∙◌, true, false, Bool, Option, some, none, if◌then◌else◌, Bool-cases,
  inl, inr,
}
use event_driven_notificatio.Domain.Errors.{ok, err, sentinel, cannot_cancel, Result}
use event_driven_notificatio.Domain.Notification.{
  Uuid, Time, Notification, can_cancel, is_final, processing,
}
use event_driven_notificatio.Postgres.Notifications.{
  Rows, find_row, get_by_id, update, saved_row, cancel_by_id, cancelled_row,
}
use event_driven_notificatio.Postgres.Notifications.Table.{IsTable}
use event_driven_notificatio.Postgres.Notifications.Cancel.{
  cancel_by_id_lem, cancel_answer, cancel_outcome,
}
use event_driven_notificatio.Service.World.{UuidText, World, Outside, SendRequest, Reply, loading}
use event_driven_notificatio.Service.Delivery.{DeliveryService, process, loaded}
use event_driven_notificatio.Service.Delivery.Stages.{update_hit}

abbrev is_ok {ℓ} : {A : Type ℓ} → Result A → Bool
is_ok (ok a) = true
is_ok _ = false

-- The row that a cancel leaves when it answers ok.
cancelled_of :
    (now : Time) (found : Option Notification)
    → is_ok (cancel_answer found) ≡ true
    → (r : Notification) × (found ≡ some r) × (can_cancel r.status ≡ true)
cancelled_of now none h = absurd (false≢true h)
cancelled_of now (some r) h = elim (Bool-cases (can_cancel r.status)) [
  | inl y ↦ (r, refl, y)
  | inr k ↦
      absurd (
        false≢true
          (sym (ap (λ b. is_ok (if b then ok tt else err (sentinel cannot_cancel))) k) ∙ h))
]

module _ (u : UuidText) (s : DeliveryService) (provider : SendRequest → Reply) (o : Outside)
    (text : String) (id : Uuid) (now : Time) (w : World) where
  -- Once CancelByID has answered without an error, Process of the notification answers without one
  -- and changes nothing: it sends nothing, and the row stays cancelled.
  pub cancel_stops_delivery :
      IsTable w.rows
      → u.parse text ≡ some id
      → o.fails loading ≡ none
      → (cancel_by_id none none now id w.rows).0 ≡ ok tt
      → let w' = record w { rows = (cancel_by_id none none now id w.rows).1 } in
        process u s provider o text w' ≡ (ok tt, w')
  unfolding process loaded get_by_id
  cancel_stops_delivery t p l h =
      let (answer, row, others) = cancel_by_id_lem now id id w.rows t in
      let (r, e, c) = cancelled_of now (find_row id w.rows) (sym (ap is_ok answer) ∙ ap is_ok h) in
      rw p (
        rw l (
          rw (row ∙ ap (Option.map (cancel_outcome now)) e)
            (rw c (unfold cancelled_row is_final in refl))))

-- A cancel that answers without an error after Process has read the notification, and before its
-- Update, is lost: the Update makes the row processing.
pub update_undoes_cancel :
    (n : Notification) (now later : Time) (rows : Rows)
    → IsTable rows
    → find_row n.id rows ≡ some n
    → can_cancel n.status ≡ true
    → let (reply, rows') = cancel_by_id none none now n.id rows in
      let (saved, n', rows'') = update none later (record n { status = processing }) rows' in
      (reply ≡ ok tt)
      × (saved ≡ ok tt)
      × ((r : Notification) × (find_row n.id rows'' ≡ some r) × (r.status ≡ processing))
unfolding update saved_row
update_undoes_cancel n now later rows t f c =
    let (answer, row, others) = cancel_by_id_lem now n.id n.id rows t in
    let hit =
      update_hit later (record n { status = processing })
        (cancel_by_id none none now n.id rows).1 in
    (
      answer ∙ rw f (rw c refl),
      refl,
      (
        saved_row later (record n { status = processing }) (cancel_outcome now n),
        unfold update in
            hit
            ∙ ap (Option.map (saved_row later (record n { status = processing })))
                (row ∙ ap (Option.map (cancel_outcome now)) f),
        refl,
      ),
    )
