-- ===== src/Postgres/Notifications/Cancel.antt =====
-- CancelByID and CancelByBatchID of internal/adapter/repository/postgres/notification.go.
use mathlib.Core.Option
use mathlib.Core.Path.{subst}
use event_driven_notificatio.Prelude.{
  ℕ, zero, suc, ◌≡◌, refl, ◌∙◌, Bool, true, false, ◌&&◌, Option, ◌≢◌, none, some, [], ◌∷◌, arith,
  ◌==◌, ==_iff, Bool-cases, inl, inr, if◌then◌else◌,
}
use event_driven_notificatio.Domain.Errors.{Result, ok, err, sentinel, not_found, cannot_cancel}
use event_driven_notificatio.Domain.Notification.{Uuid, Time, Status, can_cancel, Notification}
use event_driven_notificatio.Postgres.Notifications.{
  Rows, is_open, cancelled_row, count_where, find_row, cancel_result, cancel_by_id,
}
use event_driven_notificatio.Postgres.Notifications.Table.{
  IsTable, LacksId, clashes-LacksId, find_row-update_where, find_row-Hits, map-Hits, map-Hits_self,
}

-- The SQL's list of statuses is what Status.CanCancel accepts.
is_open-eq-can_cancel : (s : Status) → is_open s ≡ can_cancel s
unfolding is_open can_cancel
is_open-eq-can_cancel s = refl

-- What CancelByID answers, from the row that is found under the ID.
abbrev pub cancel_answer : Option Notification → Result (Unit {0})
cancel_answer none = err (sentinel not_found)
cancel_answer (some r) = if can_cancel r.status then ok tt else err (sentinel cannot_cancel)

-- What becomes of the row.
abbrev pub cancel_outcome : Time → Notification → Notification
cancel_outcome now r = if can_cancel r.status then cancelled_row now r else r

count_lacking :
    (id : Uuid) (rows : Rows)
    → LacksId id rows
    → count_where (λ r. r.id == id && is_open r.status) rows ≡ 0
count_lacking id [] l = refl
count_lacking id (r ∷ rows) l = rw l.0 (count_lacking id rows l.1)

-- the answer over the rows of a table
answer : Uuid → Rows → Result (Unit {0})
answer id rows = cancel_result (count_where (λ r. r.id == id && is_open r.status) rows) none id rows

cancel_result-cons :
    (k : ℕ) (id : Uuid) (r : Notification) (rows : Rows)
    → (r.id == id) ≡ false
    → cancel_result k none id (r ∷ rows) ≡ cancel_result k none id rows
unfolding cancel_result find_row
cancel_result-cons zero id r rows h = rw h refl
cancel_result-cons (suc k) id r rows h = refl

answer-head :
    (b : Bool) (id : Uuid) (r : Notification) (rows : Rows)
    → (r.id == id) ≡ true
    → cancel_result (if b then 1 else 0) none id (r ∷ rows)
      ≡ (if b then ok tt else err (sentinel cannot_cancel))
unfolding cancel_result find_row
answer-head true id r rows h = refl
answer-head false id r rows h = rw h refl

answer-lem :
    (id : Uuid) (rows : Rows) → IsTable rows → answer id rows ≡ cancel_answer (find_row id rows)
unfolding answer find_row
answer-lem id [] t = unfold cancel_result find_row in refl
answer-lem id (r ∷ rows) t = elim (Bool-cases (r.id == id)) [
  | inl y ↦
      let l = subst (λ i. LacksId i rows) ((==_iff r.id id).0 y) (clashes-LacksId r rows t.0) in
      rw y (
        rw (count_lacking id rows l)
          (rw (is_open-eq-can_cancel r.status) (answer-head (can_cancel r.status) id r rows y)))
  | inr k ↦ rw k (cancel_result-cons _ id r rows k ∙ answer-lem id rows t.2)
]

-- the update of one row, under its own ID and under another
module _ (now : Time) (id : Uuid) (r : Notification) where
  abbrev updated : Notification
  updated = if r.id == id && is_open r.status then cancelled_row now r else r

  hit-outcome : (r.id == id) ≡ true → updated ≡ cancel_outcome now r
  unfolding is_open can_cancel
  hit-outcome y = rw y refl

  miss-outcome : (j : Uuid) → j ≢ id → (r.id == j) ≡ true → updated ≡ r
  miss-outcome j ne y = ground arith

-- On a table, CancelByID with a database that answers cancels the notification if its status is
-- pending, scheduled or queued; it answers ErrCannotCancel and leaves the row if the status is any
-- other, and ErrNotFound if there is no row. Every other row stays as it was.
pub cancel_by_id_lem :
    (now : Time) (id j : Uuid) (rows : Rows)
    → IsTable rows
    → let (reply, rows') = cancel_by_id none none now id rows in
      (reply ≡ cancel_answer (find_row id rows))
      × (find_row id rows' ≡ Option.map (cancel_outcome now) (find_row id rows))
      × (j ≢ id → find_row j rows' ≡ find_row j rows)
unfolding cancel_by_id cancelled_row
cancel_by_id_lem now id j rows t =
    let p = λ (r : Notification). r.id == id && is_open r.status in
    let under = find_row-update_where p (cancelled_row now) (λ r. refl) (λ r. refl) (λ r. refl) in
    (
      unfold answer in answer-lem id rows t,
      under id rows ∙ map-Hits id _ _ (hit-outcome now id) _ (find_row-Hits id rows),
      λ ne.
          under j rows
          ∙ map-Hits_self j _ (λ r. miss-outcome now id r j ne) _ (find_row-Hits j rows),
    )
