-- ===== src/Service/Create/Sends.antt =====
-- Create of internal/service/notification.go on a request that is sent at once.
use mathlib.Core.Path.{subst}
use event_driven_notificatio.Prelude.{
  arith, String, leb, ◌≡◌, refl, sym, ap, ◌∙◌, true, false, none, some, [], ◌∷◌, ◌++◌, ◌==◌,
  ==_refl, ◌/◌, ◌^◌,
}
use event_driven_notificatio.Domain.Errors.{ok}
use event_driven_notificatio.Domain.Notification.{
  priority_from_string, Uuid, Notification, queued, is_valid, new_notification,
}
use event_driven_notificatio.Queue.{enqueue}
use event_driven_notificatio.Postgres.Notifications.{
  Rows, clashes, create, insert_row, inserted_row, of_insert, find_row, update_status,
}
use event_driven_notificatio.Postgres.Notifications.Table.{
  LacksId, clashes-LacksId, find_row-update_where,
}
use event_driven_notificatio.Service.World.{UuidText}
use event_driven_notificatio.Service.Scheduler.{queue_message}
use event_driven_notificatio.Service.Templates.{Engine}
use event_driven_notificatio.Service.Intake.{CreateNotificationRequest, validate_content}
use event_driven_notificatio.Service.Create.{
  Store, CreateOutside, requested, created_event, announce, send_off, inserted, scheduled_at,
  looked_up, keyed, checked, filled, filled_in, create_notification,
}

pub find_row-append :
    (r : Notification) (rows : Rows) → LacksId r.id rows → find_row r.id (rows ++ r ∷ []) ≡ some r
unfolding find_row
find_row-append r [] l = rw (==_refl r.id) refl
find_row-append r (c ∷ rows) l = rw (l.0) (find_row-append r rows l.1)

priority_from_string-le : (s : String) → leb (priority_from_string s) 2 ≡ true
unfolding priority_from_string
priority_from_string-le s = ground arith

module _ (u : UuidText) (engine : Engine) (o : CreateOutside)
    (req : CreateNotificationRequest) where
  -- A request for now, with its own text and no key, which nothing refuses.
  pub record IsPlain (rows : Rows) : Type 0 where
    pub channel : is_valid req.channel ≡ true
    pub content : validate_content req.channel req.content ≡ none
    pub no_template : req.template_id ≡ none
    pub no_key : req.idempotency_key ≡ none
    pub no_schedule : req.scheduled_at ≡ none
    pub fresh : clashes (requested u engine o req) rows ≡ false
    pub inserts : o.insert_fails ≡ none
    pub marks : o.status_fails ≡ none
    pub enqueues : o.queue_fails ≡ none

  -- its row once it is queued
  abbrev pub queued_row : Notification
  queued_row = record (inserted_row (requested u engine o req)) {
    status = queued;
    updated_at = o.updated_at;
  }

  abbrev pub queued_request : Notification
  queued_request = record (requested u engine o req) { status = queued }

  requested_row :
      (rows : Rows)
      → IsPlain rows
      → insert_row (requested u engine o req) rows
        ≡ some (rows ++ inserted_row (requested u engine o req) ∷ [])
  unfolding insert_row
  requested_row rows h =
      let valid : is_valid (requested u engine o req).channel ≡ true =
        unfold requested new_notification in h.channel in
      let low : leb (requested u engine o req).priority 2 ≡ true =
        unfold requested new_notification in priority_from_string-le req.priority in
      rw (h.fresh) (rw (valid, low) refl)

  sent_off :
      (st : Store)
      → IsPlain st.rows
      → create_notification u engine o req st
        ≡ send_off u engine o
            (requested u engine o req)
            (record st { rows = st.rows ++ inserted_row (requested u engine o req) ∷ [] })
  unfolding create_notification filled_in filled checked looked_up keyed scheduled_at inserted
      create of_insert
  sent_off st h =
      let n = requested u engine o req in
      rw (h.channel) (
        ap (λ t. filled u engine o (filled_in u engine o t req) st) h.no_template
        ∙ (ap (λ c. checked u engine o req c st) h.content
            ∙ (ap (λ k. looked_up u engine o req (keyed u engine o req k st.rows) st) h.no_key
                ∙ (ap (λ t. scheduled_at u engine o t n st) h.no_schedule
                    ∙ (ap (λ f. inserted u engine o none n (create f n st.rows) st) h.inserts
                        ∙ ap (λ x. inserted u engine o none n (of_insert x st.rows) st)
                            (requested_row st.rows h))))))

  -- it is found under its ID
  row_found :
      (rows : Rows)
      → IsPlain rows
      → find_row o.id
          (update_status none o.updated_at o.id queued
            (rows ++ inserted_row (requested u engine o req) ∷ [])).1
        ≡ some queued_row
  unfolding update_status
  row_found rows h =
      let r = inserted_row (requested u engine o req) in
      let same : r.id ≡ o.id = unfold requested new_notification inserted_row in refl in
      let l : LacksId o.id rows =
        unfold requested new_notification in
        clashes-LacksId (requested u engine o req) rows h.fresh in
      let found : find_row o.id (rows ++ r ∷ []) ≡ some r =
        subst (λ (j : Uuid). find_row j (rows ++ r ∷ []) ≡ some r) same
          (find_row-append r rows (subst (λ (j : Uuid). LacksId j rows) (sym same) l)) in
      find_row-update_where (λ c. c.id == o.id)
        (λ c. record c { status = queued; updated_at = o.updated_at }) (λ c. refl) (λ c. refl)
        (λ c. refl) o.id (rows ++ r ∷ [])
      ∙ rw found (rw same (rw (==_refl o.id) refl))

  -- A Create of a plain request answers the notification, queued, whose row is found under its ID;
  -- its message is put into the queue, and one event is published.
  pub create_sends :
      (st : Store)
      → IsPlain st.rows
      → let (reply, st') = create_notification u engine o req st in
        (reply ≡ ok queued_request)
        × (find_row o.id st'.rows ≡ some queued_row)
        × (st'.queues
            ≡ (enqueue none (o.enqueued_at / 10 ^ 6) (queue_message u queued_request) st.queues).1)
        × (st'.events ≡ st.events ++ created_event u engine o queued_request ∷ [])
  unfolding send_off announce
  create_sends st h =
      let n = requested u engine o req in
      let rows = st.rows ++ inserted_row n ∷ [] in
      let same : n.id ≡ o.id = unfold requested new_notification in refl in
      rw (sent_off st h) (
        refl,
        ap (λ f. find_row o.id (update_status f o.updated_at n.id queued rows).1) h.marks
            ∙ (ap (λ (j : Uuid). find_row o.id (update_status none o.updated_at j queued rows).1)
                  same
                ∙ row_found st.rows h),
        ap (λ f. (enqueue f (o.enqueued_at / 10 ^ 6) (queue_message u queued_request) st.queues).1)
            h.enqueues,
        refl,
      )
