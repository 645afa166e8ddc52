-- ===== src/Postgres/Notifications/History.antt =====
-- The notifications table (internal/adapter/repository/postgres) over every sequence of calls.
use event_driven_notificatio.Prelude.{ℕ, refl, Bool, Option, none, some, List, [], ◌∷◌}
use event_driven_notificatio.Domain.Errors.{Error}
use event_driven_notificatio.Domain.Notification.{Uuid, Time, Status, Notification}
use event_driven_notificatio.Postgres.Notifications.{
  Rows, create, create_batch, insert_row, insert_rows, of_insert, update, update_status, saved_row,
  cancel_by_id, cancel_by_batch_id, cancelled_row, claim, queued_row, get_scheduled_ready,
  get_retry_ready,
}
use event_driven_notificatio.Postgres.Notifications.Table.{
  IsTable, IsTable?, insert_row-IsTable, update_where-IsTable,
}

-- The calls that write to the table, in the order in which the database runs them.
pub data Statement : Type 0 where
  creates : Option Error → Notification → Statement
  creates_batch : Option Error → List Notification → Statement
  updates : Option Error → Time → Notification → Statement
  updates_status : Option Error → Time → Uuid → Status → Statement
  cancels : Option Error → Option Error → Time → Uuid → Statement
  cancels_batch : Option Error → Time → Uuid → Statement
  claims_scheduled : Option Error → (Uuid → Bool) → Time → ℕ → Statement
  claims_retry : Option Error → (Uuid → Bool) → Time → ℕ → Statement

unfoldable pub step : Rows → Statement → Rows
step rows (creates e n) = (create e n rows).1
step rows (creates_batch e ns) = (create_batch e ns rows).1
step rows (updates e now n) = (update e now n rows).2
step rows (updates_status e now id s) = (update_status e now id s rows).1
step rows (cancels e f now id) = (cancel_by_id e f now id rows).1
step rows (cancels_batch e now batch) = (cancel_by_batch_id e now batch rows).1
step rows (claims_scheduled e locked now limit) = (get_scheduled_ready e locked now limit rows).1
step rows (claims_retry e locked now limit) = (get_retry_ready e locked now limit rows).1

unfoldable pub run : Rows → List Statement → Rows
run rows [] = rows
run rows (c ∷ cs) = run (step rows c) cs

of_insert-IsTable :
    (o : Option Rows) (rows : Rows) → IsTable? o → IsTable rows → IsTable (of_insert o rows).1
unfolding of_insert
of_insert-IsTable none rows h t = t
of_insert-IsTable (some x) rows h t = h

insert_rows-IsTable :
    (ns : List Notification) (rows : Rows) → IsTable rows → IsTable? (insert_rows ns rows)
unfolding insert_rows
insert_rows-IsTable [] rows t = t
insert_rows-IsTable (n ∷ ns) rows t =
    go (insert_row n rows) (insert_row-IsTable n rows t) (insert_rows-IsTable ns)
  where
    go :
        (o : Option Rows)
        → IsTable? o
        → ((x : Rows) → IsTable x → IsTable? (insert_rows ns x))
        → IsTable? (elim o [ none ↦ none | some x ↦ insert_rows ns x ])
    go none h ih = tt
    go (some x) h ih = ih x h

claim-IsTable :
    (ready : Notification → Bool) (due : Notification → ℕ) (locked : Uuid → Bool) (limit : ℕ)
    (now : Time) (rows : Rows)
    → IsTable rows
    → IsTable (claim ready due locked limit now rows).1
unfolding claim queued_row
claim-IsTable ready due locked limit now rows t =
    update_where-IsTable _ (queued_row now) (λ r. refl) (λ r. refl) (λ r. refl) rows t

pub step-IsTable : (rows : Rows) (c : Statement) → IsTable rows → IsTable (step rows c)
unfolding step create create_batch update update_status cancel_by_id cancel_by_batch_id
    get_scheduled_ready get_retry_ready
step-IsTable rows (creates none n) t = of_insert-IsTable _ rows (insert_row-IsTable n rows t) t
step-IsTable rows (creates_batch none ns) t =
    of_insert-IsTable _ rows (insert_rows-IsTable ns rows t) t
step-IsTable rows (updates none now n) t =
    update_where-IsTable _ (saved_row now n) (λ r. refl) (λ r. refl) (λ r. refl) rows t
step-IsTable rows (updates_status none now id s) t =
    update_where-IsTable _ _ (λ r. refl) (λ r. refl) (λ r. refl) rows t
step-IsTable rows (cancels none f now id) t =
    update_where-IsTable _ (cancelled_row now) (λ r. refl) (λ r. refl) (λ r. refl) rows t
step-IsTable rows (cancels_batch none now batch) t =
    update_where-IsTable _ (cancelled_row now) (λ r. refl) (λ r. refl) (λ r. refl) rows t
step-IsTable rows (claims_scheduled none locked now limit) t =
    claim-IsTable _ _ locked limit now rows t
step-IsTable rows (claims_retry none locked now limit) t = claim-IsTable _ _ locked limit now rows t
step-IsTable rows (creates (some e) n) t = t
step-IsTable rows (creates_batch (some e) ns) t = t
step-IsTable rows (updates (some e) now n) t = t
step-IsTable rows (updates_status (some e) now id s) t = t
step-IsTable rows (cancels (some e) f now id) t = t
step-IsTable rows (cancels_batch (some e) now batch) t = t
step-IsTable rows (claims_scheduled (some e) locked now limit) t = t
step-IsTable rows (claims_retry (some e) locked now limit) t = t

run-IsTable_from : (rows : Rows) (cs : List Statement) → IsTable rows → IsTable (run rows cs)
unfolding run
run-IsTable_from rows [] t = t
run-IsTable_from rows (c ∷ cs) t = run-IsTable_from (step rows c) cs (step-IsTable rows c t)

-- From an empty table, whatever calls are made, failed ones included, no two rows have the same ID
-- or the same idempotency key, and every row's channel is valid.
pub run-IsTable : (cs : List Statement) → IsTable (run [] cs)
run-IsTable cs = run-IsTable_from [] cs tt
