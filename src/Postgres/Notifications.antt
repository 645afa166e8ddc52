-- ===== src/Postgres/Notifications.antt =====
-- internal/adapter/repository/postgres/notification.go and the notifications table of
-- migrations/000001_create_notifications.up.sql. A table is the list of its rows. A failure of the
-- database is an argument of the call, and so is NOW(); a statement that fails changes nothing.
pub mod Cancel
pub mod RowLists
pub mod Distinct
pub mod Claim
pub mod Pollers
pub mod Table
pub mod History
use event_driven_notificatio.Prelude.{
  ℕ, zero, suc, ◌+◌, String, Bool, true, false, not, ◌&&◌, ◌||◌, Option, none, some, is_some, List,
  [], ◌∷◌, ◌++◌, map, filterb, length, take, leb, ◌==◌, str_eq, if◌then◌else◌, sort_by,
}
use event_driven_notificatio.Domain.Errors.{
  Error, sentinel, foreign, not_found, cannot_cancel, Result, ok, err,
}
use event_driven_notificatio.Domain.Notification.{
  Uuid, Time, Channel, is_valid, Status, pending, scheduled, queued, failed, cancelled, same_status,
  Notification,
}

abbrev pub Rows : Type 0
Rows = List Notification

-- The columns that INSERT leaves out take their defaults.
unfoldable pub inserted_row : Notification → Notification
inserted_row n = record n {
  sent_at = none;
  provider_msg_id = none;
  retry_count = 0;
  next_retry_at = none;
  error_message = none;
}

abbrev pub same_key : Option String → Option String → Bool
same_key none k = false
same_key (some a) none = false
same_key (some a) (some b) = str_eq a b

-- PRIMARY KEY (id) and UNIQUE (idempotency_key); NULL keys do not clash.
abbrev pub clash : Notification → Notification → Bool
clash r n = r.id == n.id || same_key r.idempotency_key n.idempotency_key

abbrev pub clashes : Notification → Rows → Bool
clashes n [] = false
clashes n (r ∷ rows) = clash r n || clashes n rows

-- The INSERT statement, with the CHECKs on the channel and the priority.
unfoldable pub insert_row : Notification → Rows → Option Rows
unfolding inserted_row
insert_row n rows =
    if clashes n rows || not (is_valid n.channel && leb n.priority 2)
    then none
    else some (rows ++ inserted_row n ∷ [])

unfoldable pub constraint_error : Error
constraint_error = foreign "constraint violation"

unfoldable pub of_insert : Option Rows → Rows → Result (Unit {0}) × Rows
unfolding constraint_error
of_insert none rows = (err constraint_error, rows)
of_insert (some rows') rows = (ok tt, rows')

-- NotificationRepo.Create
unfoldable pub create : Option Error → Notification → Rows → Result (Unit {0}) × Rows
unfolding of_insert insert_row
create (some e) n rows = (err e, rows)
create none n rows = of_insert (insert_row n rows) rows

insert_rows : List Notification → Rows → Option Rows
unfolding insert_row
insert_rows [] rows = some rows
insert_rows (n ∷ ns) rows = elim (insert_row n rows) [
  | none ↦ none
  | some rows' ↦ insert_rows ns rows'
]

-- NotificationRepo.CreateBatch: one transaction; a failure of Begin, of a statement or of Commit
-- leaves the table as it was.
unfoldable pub create_batch : Option Error → List Notification → Rows → Result (Unit {0}) × Rows
unfolding of_insert insert_rows
create_batch (some e) ns rows = (err e, rows)
create_batch none ns rows = of_insert (insert_rows ns rows) rows

unfoldable pub find_row : Uuid → Rows → Option Notification
find_row id [] = none
find_row id (r ∷ rows) = if r.id == id then some r else find_row id rows

or_not_found : Option Notification → Result Notification
or_not_found none = err (sentinel not_found)
or_not_found (some n) = ok n

-- NotificationRepo.GetByID
unfoldable pub get_by_id : Option Error → Uuid → Rows → Result Notification
unfolding or_not_found
get_by_id (some e) id rows = err e
get_by_id none id rows = or_not_found (find_row id rows)

abbrev pub same_id : Option Uuid → Uuid → Bool
same_id none b = false
same_id (some a) b = a == b

-- NotificationRepo.GetByBatchID: ORDER BY created_at.
unfoldable pub get_by_batch_id : Option Error → Uuid → Rows → Result (List Notification)
get_by_batch_id (some e) batch rows = err e
get_by_batch_id none batch rows =
    ok (sort_by (λ (r : Notification). r.created_at) (filterb (λ r. same_id r.batch_id batch) rows))

-- UPDATE ... WHERE p, with the assignments as a function.
pub update_where : (Notification → Bool) → (Notification → Notification) → Rows → Rows
update_where p f [] = []
update_where p f (r ∷ rows) = (if p r then f r else r) ∷ update_where p f rows

abbrev pub count_where : (Notification → Bool) → Rows → ℕ
count_where p [] = 0
count_where p (r ∷ rows) = let rest = count_where p rows in if p r then suc rest else rest

-- The columns that Update writes.
unfoldable pub saved_row : Time → Notification → Notification → Notification
saved_row now n r = record r {
  status = n.status;
  sent_at = n.sent_at;
  provider_msg_id = n.provider_msg_id;
  retry_count = n.retry_count;
  next_retry_at = n.next_retry_at;
  metadata = n.metadata;
  error_message = n.error_message;
  updated_at = now;
}

-- NotificationRepo.Update: the notification with its new `UpdatedAt`, and the statement's result.
-- The statement has no condition on the row's status.
unfoldable pub update :
    Option Error → Time → Notification → Rows → Result (Unit {0}) × Notification × Rows
unfolding saved_row update_where
update (some e) now n rows = (err e, record n { updated_at = now }, rows)
update none now n rows =
    (ok tt, record n { updated_at = now }, update_where (λ r. r.id == n.id) (saved_row now n) rows)

-- NotificationRepo.UpdateStatus
unfoldable pub update_status : Option Error → Time → Uuid → Status → Rows → Result (Unit {0}) × Rows
unfolding update_where
update_status (some e) now id status rows = (err e, rows)
update_status none now id status rows = (
  ok tt,
  update_where (λ r. r.id == id) (λ r. record r { status = status; updated_at = now }) rows,
)

-- status IN ('pending', 'scheduled', 'queued')
pub is_open : Status → Bool
is_open s = same_status s pending || (same_status s scheduled || same_status s queued)

unfoldable pub cancelled_row : Time → Notification → Notification
cancelled_row now r = record r { status = cancelled; updated_at = now }

-- The tests behind the UPDATE of CancelByID. A failed EXISTS query leaves `exists` false.
cancel_result : ℕ → Option Error → Uuid → Rows → Result (Unit {0})
cancel_result (suc k) exists_failure id rows = ok tt
cancel_result zero (some e) id rows = err (sentinel not_found)
cancel_result zero none id rows =
    if is_some (find_row id rows) then err (sentinel cannot_cancel) else err (sentinel not_found)

-- NotificationRepo.CancelByID
unfoldable pub cancel_by_id :
    Option Error → Option Error → Time → Uuid → Rows → Result (Unit {0}) × Rows
unfolding is_open cancelled_row update_where cancel_result find_row
cancel_by_id (some e) exists_failure now id rows = (err e, rows)
cancel_by_id none exists_failure now id rows =
    let p = λ (r : Notification). r.id == id && is_open r.status in
    (
      cancel_result (count_where p rows) exists_failure id rows,
      update_where p (cancelled_row now) rows,
    )

-- NotificationRepo.CancelByBatchID
unfoldable pub cancel_by_batch_id : Option Error → Time → Uuid → Rows → Result ℕ × Rows
unfolding is_open cancelled_row update_where
cancel_by_batch_id (some e) now batch rows = (err e, rows)
cancel_by_batch_id none now batch rows =
    let p = λ (r : Notification). same_id r.batch_id batch && is_open r.status in
    (ok (count_where p rows), update_where p (cancelled_row now) rows)

abbrev pub contains : Uuid → List Notification → Bool
contains id [] = false
contains id (r ∷ rows) = r.id == id || contains id rows

pub queued_row : Time → Notification → Notification
queued_row now r = record r { status = queued; updated_at = now }

-- UPDATE ... WHERE id IN (SELECT id ... WHERE ready ORDER BY due LIMIT n FOR UPDATE SKIP LOCKED)
-- RETURNING ...; `locked` tells the rows that other transactions hold.
pub claim :
    (Notification → Bool)
    → (Notification → ℕ)
    → (Uuid → Bool)
    → ℕ
    → Time
    → Rows
    → List Notification × Rows
unfolding update_where queued_row
claim ready due locked limit now rows =
    let chosen = take limit (sort_by due (filterb (λ r. ready r && not (locked r.id)) rows)) in
    let rows' = update_where (λ r. contains r.id chosen) (queued_row now) rows in
    (filterb (λ r. contains r.id chosen) rows', rows')

-- t <= NOW(), which NULL does not meet.
abbrev pub is_due : Option Time → Time → Bool
is_due none now = false
is_due (some t) now = leb t now

abbrev pub or_zero : Option Time → ℕ
or_zero none = 0
or_zero (some t) = t

pub is_scheduled_ready : Time → Notification → Bool
is_scheduled_ready now r = same_status r.status scheduled && is_due r.scheduled_at now

-- NotificationRepo.GetScheduledReady
unfoldable pub get_scheduled_ready :
    Option Error → (Uuid → Bool) → Time → ℕ → Rows → Result (List Notification) × Rows
unfolding claim is_scheduled_ready
get_scheduled_ready (some e) locked now limit rows = (err e, rows)
get_scheduled_ready none locked now limit rows =
    let (found, rows') =
      claim (is_scheduled_ready now) (λ r. or_zero r.scheduled_at) locked limit now rows in
    (ok found, rows')

unfoldable pub is_retry_ready : Time → Notification → Bool
is_retry_ready now r =
    same_status r.status failed
    && (leb (suc r.retry_count) r.max_retries && is_due r.next_retry_at now)

-- NotificationRepo.GetRetryReady
unfoldable pub get_retry_ready :
    Option Error → (Uuid → Bool) → Time → ℕ → Rows → Result (List Notification) × Rows
unfolding claim is_retry_ready
get_retry_ready (some e) locked now limit rows = (err e, rows)
get_retry_ready none locked now limit rows =
    let (found, rows') =
      claim (is_retry_ready now) (λ r. or_zero r.next_retry_at) locked limit now rows in
    (ok found, rows')

find_key : String → Rows → Option Notification
find_key key [] = none
find_key key (r ∷ rows) =
    if same_key r.idempotency_key (some key) then some r else find_key key rows

-- NotificationRepo.GetByIdempotencyKey: a missing key is no error.
unfoldable pub get_by_idempotency_key : Option Error → String → Rows → Result (Option Notification)
unfolding find_key
get_by_idempotency_key (some e) key rows = err e
get_by_idempotency_key none key rows = ok (find_key key rows)
