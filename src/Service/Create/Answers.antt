-- ===== src/Service/Create/Answers.antt =====
-- What an answer of Create of internal/service/notification.go says of the store.
use event_driven_notificatio.Prelude.{
  leb, ◌&&◌, ◌≡◌, refl, ap, ◌⊎◌, inl, inr, Option, none, some, [], ◌∷◌, ◌++◌, ltb, Bool-cases,
  false, ◌/◌, ◌^◌, String,
}
use event_driven_notificatio.Domain.Errors.{Error, Sentinel, sentinel, Result, ok, err, panics}
use event_driven_notificatio.Domain.Notification.{
  Notification, Time, pending, queued, scheduled, is_valid, new_notification,
}
use event_driven_notificatio.Queue.{enqueue}
use event_driven_notificatio.Postgres.Notifications.{
  Rows, create, insert_row, inserted_row, of_insert, clashes, update_status, get_by_idempotency_key,
}
use event_driven_notificatio.Service.World.{UuidText}
use event_driven_notificatio.Service.Scheduler.{queue_message}
use event_driven_notificatio.Service.Templates.{Engine}
use event_driven_notificatio.Service.Intake.{CreateNotificationRequest}
use event_driven_notificatio.Service.Create.{
  Store, CreateOutside, requested, created_event, announce, send_off, inserted, scheduled_at,
  looked_up, keyed, checked, filled, create_notification,
}

-- An INSERT takes a new row in at the end, or leaves the table.
abbrev pub Inserts : Notification → Rows → Result (Unit {0}) × Rows → Type 0
Inserts n rows (ok _, rows') = (clashes n rows ≡ false) × (rows' ≡ rows ++ inserted_row n ∷ [])
Inserts n rows (err e, rows') = rows' ≡ rows
Inserts n rows (panics, rows') = ⊥

insert_row-Inserts :
    (n : Notification) (rows : Rows) → Inserts n rows (of_insert (insert_row n rows) rows)
unfolding of_insert insert_row
insert_row-Inserts n rows = elim (Bool-cases (clashes n rows)) [
  | inl y ↦ rw y refl
  | inr k ↦ elim (Bool-cases (is_valid n.channel && leb n.priority 2)) [
    | inl v ↦ rw k (rw v (k, refl))
    | inr v ↦ rw k (rw v refl)
  ]
]

create-Inserts :
    (f : Option Error) (n : Notification) (rows : Rows) → Inserts n rows (create f n rows)
unfolding create
create-Inserts (some x) n rows = refl
create-Inserts none n rows = insert_row-Inserts n rows

module _ (u : UuidText) (engine : Engine) (o : CreateOutside) where
  -- n is the stored notification of an idempotency key, and the store stays.
  abbrev pub IsRepeat : Store → Notification → Store → Type 0
  IsRepeat st n st' =
      (key : String) × (get_by_idempotency_key o.lookup_fails key st.rows ≡ ok (some n))
      × (st' ≡ st)

  -- n is inserted as pending, marked as queued unless that fails, and its message is enqueued.
  abbrev pub IsSentOff : Store → Notification → Store → Type 0
  IsSentOff st n st' =
      (first : Notification) × (first.status ≡ pending)
      × (n ≡ record first { status = queued })
      × (clashes first st.rows ≡ false)
      × (st'.rows
          ≡ (update_status o.status_fails o.updated_at n.id queued
              (st.rows ++ inserted_row first ∷ [])).1)
      × (st'.queues
          ≡ (enqueue o.queue_fails (o.enqueued_at / 10 ^ 6) (queue_message u n) st.queues).1)

  -- n is inserted as scheduled, and the queues stay.
  abbrev pub IsPutOff : Store → Notification → Store → Type 0
  IsPutOff st n st' =
      (n.status ≡ scheduled)
      × (clashes n st.rows ≡ false)
      × (st'.rows ≡ st.rows ++ inserted_row n ∷ [])
      × (st'.queues ≡ st.queues)

  -- n is new, and one event tells its ID and status.
  abbrev pub IsNew : Store → Notification → Store → Type 0
  IsNew st n st' =
      (IsSentOff st n st' ⊎ IsPutOff st n st')
      × (st'.events ≡ st.events ++ created_event u engine o n ∷ [])

  -- What an answer tells; one without a notification leaves the store.
  abbrev pub IsHonest : Store → Result Notification × Store → Type 0
  IsHonest st (err e, st') = st' ≡ st
  IsHonest st (panics, st') = st' ≡ st
  IsHonest st (ok n, st') = IsRepeat st n st' ⊎ IsNew st n st'

  refused-IsHonest : (e : Error) (st : Store) → IsHonest st (err e, st)
  refused-IsHonest e st = refl

  inserted-IsSentOff :
      (n : Notification) (r : Result (Unit {0}) × Rows) (st : Store)
      → n.status ≡ pending
      → Inserts n st.rows r
      → IsHonest st (inserted u engine o none n r st)
  unfolding inserted send_off announce
  inserted-IsSentOff n (err e, rows') st p f = ap (λ (rows : Rows). record st { rows = rows }) f
  inserted-IsSentOff n (panics, rows') st p f = absurd f
  inserted-IsSentOff n (ok _, rows') st p (c, e) = inr (
    inl (
      n,
      p,
      refl,
      c,
      ap (λ (rows : Rows). (update_status o.status_fails o.updated_at n.id queued rows).1) e,
      refl,
    ),
    refl,
  )

  inserted-IsPutOff :
      (t : Time) (n : Notification) (r : Result (Unit {0}) × Rows) (st : Store)
      → n.status ≡ scheduled
      → Inserts n st.rows r
      → IsHonest st (inserted u engine o (some t) n r st)
  unfolding inserted announce
  inserted-IsPutOff t n (err e, rows') st p f = ap (λ (rows : Rows). record st { rows = rows }) f
  inserted-IsPutOff t n (panics, rows') st p f = absurd f
  inserted-IsPutOff t n (ok _, rows') st p (c, e) = inr (inr (p, c, e, refl), refl)

  scheduled_at-IsHonest :
      (at : Option Time) (n : Notification) (st : Store)
      → n.status ≡ pending
      → IsHonest st (scheduled_at u engine o at n st)
  unfolding scheduled_at
  scheduled_at-IsHonest none n st p =
      inserted-IsSentOff n _ st p (create-Inserts o.insert_fails n st.rows)
  scheduled_at-IsHonest (some t) n st p = elim (Bool-cases (ltb t o.scheduling_at)) [
    | inl y ↦ rw y refl
    | inr k ↦ rw k (
        inserted-IsPutOff t (record n { scheduled_at = some t; status = scheduled }) _ st refl
          (create-Inserts o.insert_fails _ st.rows))
  ]

  -- An answer that a stored notification has the key.
  abbrev Finds : Rows → Result (Option Notification) → Type 0
  Finds rows (ok (some n)) =
      (key : String) × (get_by_idempotency_key o.lookup_fails key rows ≡ ok (some n))
  Finds rows (ok none) = Unit
  Finds rows (err e) = Unit
  Finds rows panics = Unit

  found-Finds :
      (key : String) (rows : Rows) (r : Result (Option Notification))
      → get_by_idempotency_key o.lookup_fails key rows ≡ r
      → Finds rows r
  found-Finds key rows (ok (some n)) h = (key, h)
  found-Finds key rows (ok none) h = tt
  found-Finds key rows (err e) h = tt
  found-Finds key rows panics h = tt

  keyed-Finds :
      (req : CreateNotificationRequest) (key : Option String) (rows : Rows)
      → Finds rows (keyed u engine o req key rows)
  unfolding keyed
  keyed-Finds req none rows = tt
  keyed-Finds req (some key) rows = found-Finds key rows _ refl

  looked_up-IsHonest :
      (req : CreateNotificationRequest) (r : Result (Option Notification)) (st : Store)
      → Finds st.rows r
      → IsHonest st (looked_up u engine o req r st)
  unfolding looked_up
  looked_up-IsHonest req (err e) st f = refused-IsHonest e st
  looked_up-IsHonest req panics st f = refl
  looked_up-IsHonest req (ok (some n)) st (key, e) = inl (key, e, refl)
  looked_up-IsHonest req (ok none) st f =
      scheduled_at-IsHonest req.scheduled_at _ st (unfold requested new_notification in refl)

  checked-IsHonest :
      (req : CreateNotificationRequest) (r : Option Sentinel) (st : Store)
      → IsHonest st (checked u engine o req r st)
  unfolding checked
  checked-IsHonest req (some s) st = refused-IsHonest (sentinel s) st
  checked-IsHonest req none st =
      looked_up-IsHonest req _ st (keyed-Finds req req.idempotency_key st.rows)

  filled-IsHonest :
      (r : Result CreateNotificationRequest) (st : Store) → IsHonest st (filled u engine o r st)
  unfolding filled
  filled-IsHonest (err e) st = refused-IsHonest e st
  filled-IsHonest panics st = refl
  filled-IsHonest (ok req) st = checked-IsHonest req _ st

  -- A Create that answers an error, wherever it fails, has changed neither the rows nor the queues
  -- and has published nothing; one that answers a notification has found it by a key and changed
  -- nothing, or has inserted it, enqueued it if it is not scheduled, and published one event, which
  -- tells that notification's ID and status.
  pub create_notification-IsHonest :
      (req : CreateNotificationRequest) (st : Store)
      → IsHonest st (create_notification u engine o req st)
  unfolding create_notification
  create_notification-IsHonest req st = elim (Bool-cases (is_valid req.channel)) [
    | inl y ↦ rw y (filled-IsHonest _ st)
    | inr k ↦ rw k refl
  ]
