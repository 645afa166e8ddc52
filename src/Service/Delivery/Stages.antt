-- ===== src/Service/Delivery/Stages.antt =====
-- Process of internal/service/delivery.go, stage by stage: what the saved rows are, and the point
-- at which an open notification stands before the breaker.
use mathlib.Core.Option
use event_driven_notificatio.Prelude.{String, ◌≡◌, ◌≢◌, refl, ◌∙◌, false, none, some, arith, ◌==◌}
use event_driven_notificatio.Domain.Notification.{Uuid, Time, processing, is_final, Notification}
use event_driven_notificatio.Postgres.Notifications.{Rows, find_row, get_by_id, update, saved_row}
use event_driven_notificatio.Postgres.Notifications.Table.{
  find_row-update_where, find_row-Hits, map-Hits, map-Hits_self,
}
use event_driven_notificatio.Service.World.{
  UuidText, World, Outside, SendRequest, Reply, loading, marking_processing, announcing_processing,
}
use event_driven_notificatio.Service.Delivery.{
  DeliveryService, save, guarded, loaded, publish_event, process,
}

module _ (now : Time) (n : Notification) where
  -- An Update that succeeds writes its columns into the row under its ID.
  pub update_hit :
      (rows : Rows)
      → find_row n.id (update none now n rows).2 ≡ Option.map (saved_row now n) (find_row n.id rows)
  unfolding update saved_row
  update_hit rows =
      find_row-update_where (λ r. r.id == n.id) (saved_row now n) (λ r. refl) (λ r. refl)
        (λ r. refl) n.id rows
      ∙ map-Hits n.id _ _ (λ r h. rw h refl) _ (find_row-Hits n.id rows)

  pub save_hit :
      (w : World)
      → find_row n.id (save none now n w).1.rows
        ≡ Option.map (saved_row now n) (find_row n.id w.rows)
  unfolding save
  save_hit w = update_hit w.rows

  pub save_miss :
      (w : World) (j : Uuid) → j ≢ n.id → find_row j (save none now n w).1.rows ≡ find_row j w.rows
  unfolding save update saved_row
  save_miss w j ne =
      find_row-update_where (λ r. r.id == n.id) (saved_row now n) (λ r. refl) (λ r. refl)
        (λ r. refl) j w.rows
      ∙ map-Hits_self j _ (λ r h. ground arith) _ (find_row-Hits j w.rows)

module _ (u : UuidText) (s : DeliveryService) (provider : SendRequest → Reply) (o : Outside) where
  -- The notification and the world once it is marked as in processing.
  abbrev pub started : Notification → Notification
  started n = record n { status = processing; updated_at = o.clock marking_processing }

  unfoldable pub started_world : Notification → World → World
  unfolding save publish_event
  started_world n w =
      publish_event u (o.clock announcing_processing) (started n)
        (save none (o.clock marking_processing) (record n { status = processing }) w).1

  -- An open notification that is found and marked stands before the breaker of its channel.
  pub process_open :
      (text : String) (id : Uuid) (n : Notification) (w : World)
      → u.parse text ≡ some id
      → find_row id w.rows ≡ some n
      → is_final n.status ≡ false
      → o.fails loading ≡ none
      → o.fails marking_processing ≡ none
      → process u s provider o text w
        ≡ guarded u s provider o (w.breakers n.channel) (started n) (started_world n w)
  unfolding process get_by_id started_world save publish_event loaded update
  process_open text id n w p f not_final load mark =
      rw p (rw load (rw f (rw not_final (rw mark refl))))
