-- ===== src/Service/Delivery/PutBacks.antt =====
-- What Process of internal/service/delivery.go does to the length of a queue: it adds one message at
-- most, and only when it answers ErrRateLimited.
use event_driven_notificatio.Prelude.{
  ℕ, ◌+◌, ◌/◌, ◌^◌, ◌≤◌, ◌≡◌, String, Bool, true, false, Option, none, some, length, arith, refl,
  Bool-cases, inl, inr, if◌then◌else◌,
}
use mathlib.Core.Path.{subst}
use event_driven_notificatio.Prelude.{sym}
use event_driven_notificatio.Domain.Errors.{
  Result, ok, err, panics, sentinel, rate_limited, is, circuit_open,
}
use event_driven_notificatio.Domain.Notification.{Uuid, Notification, is_final, processing}
use event_driven_notificatio.Queue.{Queues}
use event_driven_notificatio.Queue.Depth.{enqueue-length}
use event_driven_notificatio.Breaker.{CircuitBreaker, allow as breaker_allow}
use event_driven_notificatio.Service.World.{
  UuidText, World, SendRequest, Reply, responded, refused, Outside, asking_breaker, asking_limiter,
  marking_processing,
}
use event_driven_notificatio.Postgres.Notifications.{update}
use event_driven_notificatio.RateLimit.{allow as limiter_allow}
use event_driven_notificatio.Service.Delivery.{
  DeliveryService, process, parsed, loaded, marked, guarded, limited, settle, put_back,
  handle_retry, put_breaker, save, log_attempt, publish_event,
}
use event_driven_notificatio.Service.Delivery.Charge.{handle_retry_frame}

-- How many messages Process may have put back, from its result.
abbrev pub put_backs : Result (Unit {0}) → ℕ
put_backs (ok x) = 0
put_backs (err e) = if is e rate_limited then 1 else 0
put_backs panics = 0

-- No queue is longer by more than the messages that are put back.
abbrev pub IsNoLonger : Queues → Result (Unit {0}) × World → Type 0
IsNoLonger q r = (k : String) → length (r.1.queues.waiting k) ≤ length (q.waiting k) + put_backs r.0

kept-IsNoLonger : (q : Queues) (r : Result (Unit {0}) × World) → r.1.queues ≡ q → IsNoLonger q r
kept-IsNoLonger q r h k =
    subst (λ (x : Queues). length (x.waiting k) ≤ length (q.waiting k) + put_backs r.0) (sym h)
      (omega arith)

module _ (u : UuidText) (s : DeliveryService) (o : Outside) where
  put_back-IsNoLonger : (n : Notification) (w : World) → IsNoLonger w.queues (put_back u s o n w)
  unfolding put_back save
  put_back-IsNoLonger n w k = omega (arith, enqueue-length _ _ _ w.queues k)

  settle-IsNoLonger :
      (reply : Reply) (cb : CircuitBreaker) (n : Notification) (w : World)
      → IsNoLonger w.queues (settle u s o reply cb n w)
  unfolding settle log_attempt publish_event put_breaker save
  settle-IsNoLonger (refused e) cb n w =
      kept-IsNoLonger w.queues (settle u s o (refused e) cb n w) (handle_retry_frame u s o e n _).1
  settle-IsNoLonger (responded id) cb n w =
      kept-IsNoLonger w.queues (settle u s o (responded id) cb n w) refl

module _ (u : UuidText) (s : DeliveryService) (provider : SendRequest → Reply) (o : Outside) where
  limited-IsNoLonger :
      (a : Result Bool) (cb : CircuitBreaker) (n : Notification) (w : World)
      → IsNoLonger w.queues (limited u s provider o a cb n w)
  unfolding limited
  limited-IsNoLonger (err e) cb n w = kept-IsNoLonger w.queues (err e, w) refl
  limited-IsNoLonger panics cb n w = kept-IsNoLonger w.queues (panics, w) refl
  limited-IsNoLonger (ok false) cb n w = put_back-IsNoLonger u s o n w
  limited-IsNoLonger (ok true) cb n w = settle-IsNoLonger u s o _ cb n w

  guarded-IsNoLonger :
      (b : Option CircuitBreaker) (n : Notification) (w : World)
      → IsNoLonger w.queues (guarded u s provider o b n w)
  unfolding guarded put_breaker
  guarded-IsNoLonger none n w = kept-IsNoLonger w.queues (panics, w) refl
  guarded-IsNoLonger (some cb) n w =
      elim (Bool-cases (breaker_allow (o.clock asking_breaker) cb).1) [
        | inl y ↦
            let (granted, keys) =
              limiter_allow s.limiter (o.fails asking_limiter) (o.clock asking_limiter / 10 ^ 6)
                o.request_id n.channel w.windows in
            rw y (
              limited-IsNoLonger granted (breaker_allow (o.clock asking_breaker) cb).0 n
                (record (put_breaker n.channel (breaker_allow (o.clock asking_breaker) cb).0 w) {
                  windows = keys;
                }))
        | inr k ↦
            let w1 = put_breaker n.channel (breaker_allow (o.clock asking_breaker) cb).0 w in
            rw k (
              kept-IsNoLonger w.queues
                (err (sentinel circuit_open), handle_retry u s o (sentinel circuit_open) n w1)
                (handle_retry_frame u s o (sentinel circuit_open) n w1).1)
      ]

  marked-IsNoLonger :
      (r : Result (Unit {0})) (n : Notification) (w : World)
      → IsNoLonger w.queues (marked u s provider o r n w)
  unfolding marked publish_event
  marked-IsNoLonger (err e) n w = kept-IsNoLonger w.queues (marked u s provider o (err e) n w) refl
  marked-IsNoLonger panics n w = kept-IsNoLonger w.queues (panics, w) refl
  marked-IsNoLonger (ok x) n w = guarded-IsNoLonger _ n _

  loaded-IsNoLonger :
      (r : Result Notification) (w : World) → IsNoLonger w.queues (loaded u s provider o r w)
  unfolding loaded
  loaded-IsNoLonger (err e) w = kept-IsNoLonger w.queues (loaded u s provider o (err e) w) refl
  loaded-IsNoLonger panics w = kept-IsNoLonger w.queues (panics, w) refl
  loaded-IsNoLonger (ok n) w = elim (Bool-cases (is_final n.status)) [
    | inl y ↦ rw y (kept-IsNoLonger w.queues (ok tt, w) refl)
    | inr k ↦
        let (reply, n', rows') =
          update (o.fails marking_processing) (o.clock marking_processing)
            (record n { status = processing }) w.rows in
        rw k (marked-IsNoLonger reply n' (record w { rows = rows' }))
  ]

  parsed-IsNoLonger :
      (i : Option Uuid) (text : String) (w : World)
      → IsNoLonger w.queues (parsed u s provider o i text w)
  unfolding parsed
  parsed-IsNoLonger none text w = kept-IsNoLonger w.queues (parsed u s provider o none text w) refl
  parsed-IsNoLonger (some id) text w = loaded-IsNoLonger _ w

  pub process-IsNoLonger :
      (text : String) (w : World) → IsNoLonger w.queues (process u s provider o text w)
  unfolding process
  process-IsNoLonger text w = parsed-IsNoLonger (u.parse text) text w
