-- ===== src/Service/Delivery/Steps.antt =====
-- What the stages of Process in internal/service/delivery.go leave of the rows and the breakers.
use event_driven_notificatio.Prelude.{
  ◌≡◌, refl, ◌+◌, ◌≢◌, ◌∙◌, true, Option, some, none, is_some, leb, Bool-cases, inl, inr, ◌==◌,
  str_eq,
}
use event_driven_notificatio.Domain.Errors.{Error}
use event_driven_notificatio.Domain.Notification.{
  Uuid, Time, Channel, Notification, is_valid, failed, queued,
}
use event_driven_notificatio.Breaker.{CircuitBreaker, record_failure, record_success}
use event_driven_notificatio.Postgres.Notifications.{Rows, find_row, update, saved_row}
use event_driven_notificatio.Postgres.Notifications.Table.{IsTable, update_where-IsTable}
use event_driven_notificatio.Service.World.{
  UuidText, World, Outside, Reply, marking_failed, marking_queued, recording_failure, refused,
  responded, marking_delivered,
}
use event_driven_notificatio.Service.Delivery.{
  DeliveryService, save, put_breaker, handle_retry, move_to_dead_letters, plan_retry, publish_event,
  put_back, settle, log_attempt,
}
use event_driven_notificatio.Service.Delivery.Charge.{charged, planned}
use event_driven_notificatio.Service.Delivery.Stages.{save_miss}

abbrev pub Breakers : Type 0
Breakers = Channel → Option CircuitBreaker

-- The map of breakers has an entry for every valid channel.
abbrev pub HasBreakers : (Channel → Option CircuitBreaker) → Type 0
HasBreakers b = (c : Channel) → is_valid c ≡ true → is_some (b c) ≡ true

-- From rows and breakers to rows and breakers: the rows under other IDs stay, the table keeps its
-- constraints, and no breaker is lost.
pub record IsStep (id : Uuid) (rows : Rows) (b : Channel → Option CircuitBreaker) (rows' : Rows)
    (b' : Channel → Option CircuitBreaker) : Type 0 where
  pub others : (j : Uuid) → j ≢ id → find_row j rows' ≡ find_row j rows
  pub table : IsTable rows → IsTable rows'
  pub breakers : HasBreakers b → HasBreakers b'

module _ {id : Uuid} {rows : Rows} {b : Breakers} where
  pub IsStep-refl : IsStep id rows b rows b
  IsStep-refl = record { others = λ j ne. refl; table = λ t. t; breakers = λ h. h }

  pub IsStep-trans :
      {rows1 rows' : Rows} {b1 b' : Breakers}
      → IsStep id rows b rows1 b1
      → IsStep id rows1 b1 rows' b'
      → IsStep id rows b rows' b'
  IsStep-trans x y = record {
    others = λ j ne. y.others j ne ∙ x.others j ne;
    table = λ t. y.table (x.table t);
    breakers = λ h. y.breakers (x.breakers h);
  }

module _ {id : Uuid} (c : Channel) (cb : CircuitBreaker) (w : World) where
  pub IsStep-put : IsStep id w.rows w.breakers w.rows (put_breaker c cb w).breakers
  unfolding put_breaker
  IsStep-put = record {
    others = λ j ne. refl;
    table = λ t. t;
    breakers = λ h d v. elim (Bool-cases (str_eq d c)) [ inl y ↦ rw y refl | inr k ↦ rw k (h d v) ];
  }

pub IsStep-save :
    (fault : Option Error) (now : Time) (n : Notification) (w : World)
    → IsStep n.id w.rows w.breakers (save fault now n w).1.rows w.breakers
unfolding save update
IsStep-save (some e) now n w = IsStep-refl
IsStep-save none now n w = record {
  others = save_miss now n w;
  table =
      unfold saved_row in
      update_where-IsTable (λ r. r.id == n.id) (saved_row now n) (λ r. refl) (λ r. refl) (λ r. refl)
        w.rows;
  breakers = λ h. h;
}

module _ (u : UuidText) (s : DeliveryService) (o : Outside) where
  pub IsStep-retry :
      (e : Error) (n : Notification) (w : World)
      → IsStep n.id w.rows w.breakers
          (handle_retry u s o e n w).rows
          (handle_retry u s o e n w).breakers
  unfolding handle_retry move_to_dead_letters plan_retry publish_event save
  IsStep-retry e n w = elim (Bool-cases (leb s.max_retries (n.retry_count + 1))) [
    | inl y ↦ rw y (
        unfold save in
        IsStep-save (o.fails marking_failed) (o.clock marking_failed)
          (record (charged u s o e n) { status = failed }) w)
    | inr k ↦ rw k (
        unfold save in
        IsStep-save (o.fails marking_failed) (o.clock marking_failed)
          (planned u s o (charged u s o e n)) w)
  ]

  pub IsStep-put_back :
      (n : Notification) (w : World)
      → IsStep n.id w.rows w.breakers (put_back u s o n w).1.rows (put_back u s o n w).1.breakers
  unfolding put_back save
  IsStep-put_back n w =
      unfold save in
      IsStep-save (o.fails marking_queued) (o.clock marking_queued) (record n { status = queued }) w

  pub IsStep-settle :
      (reply : Reply) (cb : CircuitBreaker) (n : Notification) (w : World)
      → IsStep n.id w.rows w.breakers
          (settle u s o reply cb n w).1.rows
          (settle u s o reply cb n w).1.breakers
  unfolding settle log_attempt publish_event put_breaker
  IsStep-settle (refused e) cb n w =
      IsStep-trans
        (unfold put_breaker in
          IsStep-put n.channel (record_failure (o.clock recording_failure) cb) w)
        (IsStep-retry e n _)
  IsStep-settle (responded id) cb n w =
      IsStep-trans (unfold put_breaker in IsStep-put n.channel (record_success cb) w) (
        unfold save in
        IsStep-save (o.fails marking_delivered) (o.clock marking_delivered) _
          (put_breaker n.channel (record_success cb) w))
