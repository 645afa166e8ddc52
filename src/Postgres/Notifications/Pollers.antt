-- ===== src/Postgres/Notifications/Pollers.antt =====
-- What the two pollers' queries of internal/adapter/repository/postgres/notification.go take.
use mathlib.Core.Bool.{false≢true}
use mathlib.Core.Option
use mathlib.Core.Path.{subst}
use event_driven_notificatio.Prelude.{
  ℕ, ◌≡◌, refl, sym, ◌∙◌, Bool, true, false, none, some, Option, Bool-cases, inl, inr, some-eq,
}
use event_driven_notificatio.Domain.Errors.{ok}
use event_driven_notificatio.Domain.Notification.{Uuid, Time, Notification}
use event_driven_notificatio.Postgres.Notifications.{
  Rows, contains, queued_row, or_zero, is_scheduled_ready, is_retry_ready, get_scheduled_ready,
  get_retry_ready, find_row,
}
use event_driven_notificatio.Postgres.Notifications.Table.{IsTable}
use event_driven_notificatio.Postgres.Notifications.Claim.{
  IsClaim, claimed-IsClaim, claimed-IsTable,
}

abbrev pub IsScheduledClaim : (Uuid → Bool) → ℕ → Time → Rows → Rows → Rows → Type 0
IsScheduledClaim locked limit now =
    IsClaim (is_scheduled_ready now) (λ r. or_zero r.scheduled_at) locked limit now

abbrev pub IsRetryClaim : (Uuid → Bool) → ℕ → Time → Rows → Rows → Rows → Type 0
IsRetryClaim locked limit now =
    IsClaim (is_retry_ready now) (λ r. or_zero r.next_retry_at) locked limit now

-- On a table, GetScheduledReady with a database that answers takes all of the scheduled notifications
-- whose time has come and that no other transaction holds, or exactly `limit` of them if there are
-- more, those with the earliest time first; it makes exactly them `queued` and returns them.
pub get_scheduled_ready_lem :
    (locked : Uuid → Bool) (now : Time) (limit : ℕ) (rows : Rows)
    → IsTable rows
    → let (reply, rows') = get_scheduled_ready none locked now limit rows in
      (found : Rows) × (reply ≡ ok found) × IsScheduledClaim locked limit now rows found rows'
unfolding get_scheduled_ready
get_scheduled_ready_lem locked now limit rows t =
    (_, refl, claimed-IsClaim _ _ locked limit now rows t)

pub scheduled-IsTable :
    (locked : Uuid → Bool) (now : Time) (limit : ℕ) (rows : Rows)
    → IsTable rows
    → IsTable (get_scheduled_ready none locked now limit rows).1
unfolding get_scheduled_ready
scheduled-IsTable locked now limit rows t = claimed-IsTable _ _ locked limit now rows t

pub retry-IsTable :
    (locked : Uuid → Bool) (now : Time) (limit : ℕ) (rows : Rows)
    → IsTable rows
    → IsTable (get_retry_ready none locked now limit rows).1
unfolding get_retry_ready
retry-IsTable locked now limit rows t = claimed-IsTable _ _ locked limit now rows t

-- On a table, GetRetryReady with a database that answers takes all of the failed notifications whose
-- retry count is below their maximum, whose next retry time has come and that no other transaction
-- holds, or exactly `limit` of them if there are more, those with the earliest time first; it makes
-- exactly them `queued` and returns them.
pub get_retry_ready_lem :
    (locked : Uuid → Bool) (now : Time) (limit : ℕ) (rows : Rows)
    → IsTable rows
    → let (reply, rows') = get_retry_ready none locked now limit rows in
      (found : Rows) × (reply ≡ ok found) × IsRetryClaim locked limit now rows found rows'
unfolding get_retry_ready
get_retry_ready_lem locked now limit rows t = (_, refl, claimed-IsClaim _ _ locked limit now rows t)

pub not_ready :
    (now at : Time) (r : Notification)
    → (is_scheduled_ready now (queued_row at r) ≡ false)
      × (is_retry_ready now (queued_row at r) ≡ false)
unfolding is_scheduled_ready is_retry_ready queued_row
not_ready now at r = (refl, refl)

-- A claim finds nothing that an earlier one found, if no queued row is ready.
module _ (ready : Notification → Bool) (now later : Time)
    (idle : (r : Notification) → ready (queued_row now r) ≡ false) where
  from_queued :
      (o : Option Notification) (r : Notification)
      → Option.map (queued_row now) o ≡ some r
      → ready r ≡ false
  from_queued none r e = cc
  from_queued (some x) r e = subst (λ z. ready z ≡ false) (some-eq e) (idle x)

  pub claims-disjoint :
      {first : Notification → Bool} {due due' : Notification → ℕ} {locked locked' : Uuid → Bool}
      {limit limit' : ℕ} {rows rows' rows'' found found' : Rows}
      → IsClaim first due locked limit now rows found rows'
      → IsClaim ready due' locked' limit' later rows' found' rows''
      → (id : Uuid) → contains id found ≡ true
      → contains id found' ≡ false
  claims-disjoint {rows = rows} {found = found} {found' = found'} c d id h =
      elim (Bool-cases (contains id found')) [
        | inl y ↦
            let (r, at, holds, _) = d.was_ready id y in
            let queued_now = rw h at (c.effect id) in
            absurd
              (false≢true (sym (from_queued (find_row id rows) r (sym queued_now ∙ at)) ∙ holds))
        | inr n ↦ n
      ]

-- Two polls of the same kind, one after the other with no write in between, never take the same
-- notification, whatever the times, limits and locks: what the first found, the second does not.
pub polls-disjoint :
    (locked locked' : Uuid → Bool) (now later : Time) (limit limit' : ℕ) (rows : Rows)
    → IsTable rows
    → (let (reply, rows') = get_scheduled_ready none locked now limit rows in
        let (reply', _) = get_scheduled_ready none locked' later limit' rows' in
        (found : Rows) × (found' : Rows) × (reply ≡ ok found)
        × (reply' ≡ ok found')
        × ((id : Uuid) → contains id found ≡ true → contains id found' ≡ false))
      × (let (reply, rows') = get_retry_ready none locked now limit rows in
          let (reply', _) = get_retry_ready none locked' later limit' rows' in
          (found : Rows) × (found' : Rows) × (reply ≡ ok found)
          × (reply' ≡ ok found')
          × ((id : Uuid) → contains id found ≡ true → contains id found' ≡ false))
polls-disjoint locked locked' now later limit limit' rows t = (
  (let (found, e, c) = get_scheduled_ready_lem locked now limit rows t in
      let (found', e', c') =
        get_scheduled_ready_lem locked' later limit' _
          (scheduled-IsTable locked now limit rows t) in
      (found, found', e, e', claims-disjoint _ now later (λ r. (not_ready later now r).0) c c')),
  (let (found, e, c) = get_retry_ready_lem locked now limit rows t in
      let (found', e', c') =
        get_retry_ready_lem locked' later limit' _ (retry-IsTable locked now limit rows t) in
      (found, found', e, e', claims-disjoint _ now later (λ r. (not_ready later now r).1) c c')),
)
