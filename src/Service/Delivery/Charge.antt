-- ===== src/Service/Delivery/Charge.antt =====
-- handleRetry of internal/service/delivery.go: a failed delivery is charged to the notification.
use event_driven_notificatio.Prelude.{
  ◌+◌, ◌≤◌, ◌<◌, ◌≡◌, refl, ◌∙◌, ◌⊎◌, inl, inr, some, none, List, [], ◌∷◌, ◌++◌, arith, leb,
  Bool-cases,
}
use event_driven_notificatio.Domain.Errors.{Error, message}
use event_driven_notificatio.Domain.Notification.{Notification, DeadLetterEntry, failed}
use event_driven_notificatio.Postgres.Notifications.{find_row, saved_row, update}
use event_driven_notificatio.Postgres.Records.{create_dead_letter}
use event_driven_notificatio.Service.World.{
  UuidText, World, Outside, marking_failed, planning_retry, burying,
}
use event_driven_notificatio.Service.Backoff.{next_retry}
use event_driven_notificatio.Service.Delivery.{
  DeliveryService, save, publish_event, handle_retry, plan_retry, move_to_dead_letters,
}
use event_driven_notificatio.Service.Delivery.Stages.{save_hit}

module _ (u : UuidText) (s : DeliveryService) (o : Outside) where
  -- The dead letter of a notification.
  abbrev pub letter_of : Error → Notification → DeadLetterEntry
  letter_of e n = record {
    id = o.dead_letter_id;
    notification_id = n.id;
    reason = "max retries exceeded";
    last_error = some (message e);
    payload = ("channel", n.channel) ∷ ("recipient", n.recipient) ∷ ("content", n.content) ∷ [];
    created_at = o.clock burying;
    reprocessed_at = none;
  }

  -- Its row has one failure more, with the error; either it has a dead letter and keeps its time of
  -- the next retry, or it has none and a new time.
  pub record IsCharged (e : Error) (n : Notification) (letters : List DeadLetterEntry) (w' : World)
      : Type 0 where
    pub row : Notification
    pub found : find_row n.id w'.rows ≡ some row
    pub is_failed : row.status ≡ failed
    pub counted : row.retry_count ≡ n.retry_count + 1
    pub told : row.error_message ≡ some (message e)
    pub kept : row.max_retries ≡ n.max_retries
    pub outcome :
        (s.max_retries ≤ n.retry_count + 1
          × (w'.dead_letters ≡ letters ++ letter_of e n ∷ [])
          × (row.next_retry_at ≡ n.next_retry_at))
        ⊎ (n.retry_count + 1 < s.max_retries
            × (w'.dead_letters ≡ letters)
            × (row.next_retry_at
                ≡ some (
                    next_retry s.base_delay s.max_delay o.random
                      (o.clock planning_retry)
                      (n.retry_count + 1))))

  -- The notification that is saved with its time of the next retry.
  abbrev pub planned : Notification → Notification
  planned n = record n {
    status = failed;
    next_retry_at =
        some (next_retry s.base_delay s.max_delay o.random (o.clock planning_retry) n.retry_count);
  }

  buried_row :
      (e : Error) (n r : Notification) (w : World)
      → find_row n.id w.rows ≡ some r
      → o.fails marking_failed ≡ none
      → find_row n.id (move_to_dead_letters u s o e n w).rows
        ≡ some (saved_row (o.clock marking_failed) (record n { status = failed }) r)
  unfolding move_to_dead_letters publish_event
  buried_row e n r w f mark =
      rw mark (save_hit (o.clock marking_failed) (record n { status = failed }) w ∙ rw f refl)

  planned_row :
      (n r : Notification) (w : World)
      → find_row n.id w.rows ≡ some r
      → o.fails marking_failed ≡ none
      → find_row n.id (plan_retry u s o n w).rows
        ≡ some (saved_row (o.clock marking_failed) (planned n) r)
  unfolding plan_retry publish_event
  planned_row n r w f mark = rw mark (save_hit (o.clock marking_failed) (planned n) w ∙ rw f refl)

  abbrev pub charged : Error → Notification → Notification
  charged e n = record n { retry_count = n.retry_count + 1; error_message = some (message e) }

  -- A failure is charged to the row that is found, when the database answers.
  pub handle_retry-IsCharged :
      (e : Error) (n r : Notification) (w : World)
      → find_row n.id w.rows ≡ some r
      → r.max_retries ≡ n.max_retries
      → o.fails marking_failed ≡ none
      → o.fails burying ≡ none
      → IsCharged e n w.dead_letters (handle_retry u s o e n w)
  unfolding handle_retry
  handle_retry-IsCharged e n r w f m mark bury =
      elim (Bool-cases (leb s.max_retries (n.retry_count + 1))) [
        | inl y ↦ rw y record {
          row = saved_row (o.clock marking_failed) (record (charged e n) { status = failed }) r;
          found = buried_row e (charged e n) r w f mark;
          is_failed = unfold saved_row in refl;
          counted = unfold saved_row in refl;
          told = unfold saved_row in refl;
          kept = unfold saved_row in m;
          outcome = inl (
            ground arith,
            unfold move_to_dead_letters publish_event create_dead_letter save update in
                rw bury (rw mark refl),
            unfold saved_row in refl,
          );
        }
        | inr k ↦ rw k record {
          row = saved_row (o.clock marking_failed) (planned (charged e n)) r;
          found = planned_row (charged e n) r w f mark;
          is_failed = unfold saved_row in refl;
          counted = unfold saved_row in refl;
          told = unfold saved_row in refl;
          kept = unfold saved_row in m;
          outcome = inr (
            ground arith,
            unfold plan_retry publish_event save in refl,
            unfold saved_row in refl,
          );
        }
      ]

  -- Only the rows, the dead letters and the events change.
  pub handle_retry_frame :
      (e : Error) (n : Notification) (w : World)
      → let w' = handle_retry u s o e n w in
        (w'.attempts ≡ w.attempts)
        × (w'.queues ≡ w.queues)
        × (w'.windows ≡ w.windows)
        × (w'.breakers ≡ w.breakers)
        × (w'.metrics ≡ w.metrics)
  unfolding handle_retry move_to_dead_letters plan_retry save publish_event
  handle_retry_frame e n w = elim (Bool-cases (leb s.max_retries (n.retry_count + 1))) [
    | inl y ↦ rw y (refl, refl, refl, refl, refl)
    | inr k ↦ rw k (refl, refl, refl, refl, refl)
  ]
