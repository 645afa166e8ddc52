-- ===== src/Postgres/Tests.antt =====
-- A table of four notifications, the repository's calls on it, and the theorems at inputs that
-- meet their hypotheses.
use event_driven_notificatio.Prelude.{sort_by, ◌≡◌, refl, true, false, none, some, [], ◌∷◌, arith}
use event_driven_notificatio.Domain.Errors.{ok}
use event_driven_notificatio.Domain.Notification.{
  Uuid, Notification, new_notification, scheduled, queued, failed, delivered, is_valid,
}
use event_driven_notificatio.Postgres.Notifications.{
  Rows, contains, get_scheduled_ready, get_retry_ready,
}
use event_driven_notificatio.Postgres.Notifications.Table.{IsTable}
use event_driven_notificatio.Postgres.Notifications.History.{creates, cancels, run, run-IsTable}
use event_driven_notificatio.Postgres.Notifications.Pollers.{
  IsScheduledClaim, IsRetryClaim, get_scheduled_ready_lem, get_retry_ready_lem, polls-disjoint,
}

abbrev plain : Uuid → Notification
unfolding new_notification
plain id = new_notification id 5 "sms" "+905551234567" "hello" 1

abbrev later : Notification
later = record (plain 1) { status = scheduled; scheduled_at = some 300 }

abbrev sooner : Notification
sooner = record (plain 2) { status = scheduled; scheduled_at = some 200 }

abbrev broken : Notification
broken = record (plain 3) { status = failed; retry_count = 1; next_retry_at = some 100 }

abbrev done : Notification
done = record (plain 4) { status = delivered }

abbrev rows : Rows
rows = later ∷ sooner ∷ broken ∷ done ∷ []

-- One of two due notifications is taken, the earlier.
claims_sooner :
    (get_scheduled_ready none (λ i. false) 400 1 rows).0
    ≡ ok (record sooner { status = queued; updated_at = 400 } ∷ [])
unfolding get_scheduled_ready new_notification sort_by
claims_sooner = refl

rows-IsTable : IsTable rows
unfolding new_notification is_valid
rows-IsTable = ground arith

run-IsTable_example :
    IsTable (run [] (creates none later ∷ creates none later ∷ cancels none none 9 1 ∷ []))
run-IsTable_example =
    run-IsTable (creates none later ∷ creates none later ∷ cancels none none 9 1 ∷ [])

get_scheduled_ready_lem_example :
    let (reply, rows') = get_scheduled_ready none (λ i. false) 400 1 rows in
    (found : Rows) × (reply ≡ ok found) × IsScheduledClaim (λ i. false) 1 400 rows found rows'
get_scheduled_ready_lem_example = get_scheduled_ready_lem (λ i. false) 400 1 rows rows-IsTable

get_retry_ready_lem_example :
    let (reply, rows') = get_retry_ready none (λ i. false) 400 100 rows in
    (found : Rows) × (reply ≡ ok found) × IsRetryClaim (λ i. false) 100 400 rows found rows'
get_retry_ready_lem_example = get_retry_ready_lem (λ i. false) 400 100 rows rows-IsTable

polls-disjoint_example :
    (let (reply, rows') = get_scheduled_ready none (λ i. false) 400 1 rows in
      let (reply', _) = get_scheduled_ready none (λ i. false) 400 1 rows' in
      (found : Rows) × (found' : Rows) × (reply ≡ ok found)
      × (reply' ≡ ok found')
      × ((id : Uuid) → contains id found ≡ true → contains id found' ≡ false))
    × (let (reply, rows') = get_retry_ready none (λ i. false) 400 1 rows in
        let (reply', _) = get_retry_ready none (λ i. false) 400 1 rows' in
        (found : Rows) × (found' : Rows) × (reply ≡ ok found)
        × (reply' ≡ ok found')
        × ((id : Uuid) → contains id found ≡ true → contains id found' ≡ false))
polls-disjoint_example = polls-disjoint (λ i. false) (λ i. false) 400 400 1 1 rows rows-IsTable
