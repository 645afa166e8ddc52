-- ===== src/Service/Delivery/Frame.antt =====
-- Process of internal/service/delivery.go in every case: it writes no row but the notification's,
-- keeps the table and the breakers, and never dereferences a nil breaker.
use mathlib.Core.Path.{subst}
use event_driven_notificatio.Prelude.{
  ℕ, String, ◌≡◌, refl, sym, ◌≢◌, ◌∙◌, ap, true, Bool, false, Option, some, none, is_some,
  Bool-cases, Option-cases, inl, inr, ◌==◌, ==_iff, [], ◌∷◌,
}
use event_driven_notificatio.Domain.Errors.{Error, sentinel, circuit_open, Result, ok, err, panics}
use event_driven_notificatio.Domain.Notification.{
  Uuid, Time, Notification, is_valid, is_final, processing,
}
use event_driven_notificatio.Breaker.{allow as breaker_allow, CircuitBreaker}
use event_driven_notificatio.Postgres.Notifications.{
  Rows, get_by_id, update_where, find_row, update, saved_row,
}
use event_driven_notificatio.Postgres.Notifications.Table.{IsTable, Hits, find_row-Hits}
use event_driven_notificatio.Service.World.{
  UuidText, World, Outside, SendRequest, Reply, loading, marking_processing, asking_breaker,
  asking_limiter, refused, responded,
}
use event_driven_notificatio.Service.Delivery.{
  DeliveryService, save, process, put_breaker, guarded, limited, marked, loaded, publish_event,
  put_back, settle,
}
use event_driven_notificatio.RateLimit.{Limiter, Windows, allow as limiter_allow}
use mathlib.Core.Bool.{false≢true}
use event_driven_notificatio.Service.Delivery.Steps.{
  HasBreakers, IsStep, IsStep-refl, IsStep-trans, IsStep-put, IsStep-save, IsStep-retry,
  IsStep-put_back, IsStep-settle,
}

found_id : (id : Uuid) (rows : Rows) (n : Notification) → find_row id rows ≡ some n → n.id ≡ id
found_id id rows n e = (==_iff n.id id).0 (subst (Hits id) e (find_row-Hits id rows))

abbrev HasChannel : Option Notification → Type 0
HasChannel none = Unit
HasChannel (some n) = is_valid n.channel ≡ true

find_row-HasChannel : (id : Uuid) (rows : Rows) → IsTable rows → HasChannel (find_row id rows)
unfolding find_row
find_row-HasChannel id [] t = tt
find_row-HasChannel id (r ∷ rows) t = elim (Bool-cases (r.id == id)) [
  | inl y ↦ rw y t.1
  | inr k ↦ rw k (find_row-HasChannel id rows t.2)
]

-- Whether a call came back, with a value or an error.
abbrev pub returns {ℓ} : {A : Type ℓ} → Result A → Bool
returns (ok a) = true
returns (err e) = true
returns panics = false

settle-returns :
    (u : UuidText) (s : DeliveryService) (o : Outside) (reply : Reply) (cb : CircuitBreaker)
    (n : Notification) (w : World)
    → returns (settle u s o reply cb n w).0 ≡ true
unfolding settle
settle-returns u s o (refused e) cb n w = refl
settle-returns u s o (responded id) cb n w = refl

limiter-returns :
    (l : Limiter) (fault : Option Error) (now : ℕ) (id channel : String) (keys : Windows)
    → returns (limiter_allow l fault now id channel keys).0 ≡ true
unfolding limiter_allow
limiter-returns l none now id channel keys = refl
limiter-returns l (some e) now id channel keys = refl

module _ (u : UuidText) (s : DeliveryService) (provider : SendRequest → Reply) (o : Outside) where
  -- A stage of Process on the notification with an ID: a step that comes back.
  abbrev Safe : Uuid → World → Result (Unit {0}) × World → Type 0
  Safe id w r = IsStep id w.rows w.breakers r.1.rows r.1.breakers × (returns r.0 ≡ true)

  limited-Safe :
      (reply : Result Bool) (cb : CircuitBreaker) (n : Notification) (w : World)
      → returns reply ≡ true
      → Safe n.id w (limited u s provider o reply cb n w)
  unfolding limited
  limited-Safe (err e) cb n w h = (IsStep-refl, refl)
  limited-Safe panics cb n w h = absurd (false≢true h)
  limited-Safe (ok false) cb n w h = (IsStep-put_back u s o n w, unfold put_back in refl)
  limited-Safe (ok true) cb n w h = (IsStep-settle u s o _ cb n w, settle-returns u s o _ cb n w)

  guarded-Safe :
      (cb : CircuitBreaker) (n : Notification) (w : World)
      → Safe n.id w (guarded u s provider o (some cb) n w)
  unfolding guarded
  guarded-Safe cb n w =
      let cb' = (breaker_allow (o.clock asking_breaker) cb).0 in
      elim (Bool-cases (breaker_allow (o.clock asking_breaker) cb).1) [
        | inl y ↦
            let rest = limited-Safe _ cb' n _ (
              limiter-returns s.limiter (o.fails asking_limiter) _ o.request_id n.channel
                w.windows) in
            rw y (IsStep-trans (IsStep-put n.channel cb' w) rest.0, rest.1)
        | inr k ↦ rw k (
          IsStep-trans (IsStep-put n.channel cb' w)
              (IsStep-retry u s o (sentinel circuit_open) n (put_breaker n.channel cb' w)),
          refl,
        )
      ]

  marked-Safe :
      (reply : Result (Unit {0})) (n : Notification) (w : World)
      → returns reply ≡ true
      → is_some (w.breakers n.channel) ≡ true
      → Safe n.id w (marked u s provider o reply n w)
  unfolding marked publish_event
  marked-Safe (err e) n w h k = (IsStep-refl, refl)
  marked-Safe panics n w h k = absurd (false≢true h)
  marked-Safe (ok _) n w h k = elim (Option-cases (w.breakers n.channel)) [
    | inl e ↦ absurd (false≢true (sym (ap is_some e) ∙ k))
    | inr (cb, e) ↦ rw e (guarded-Safe cb n _)
  ]

  mark-Safe :
      (fault : Option Error) (now : Time) (n : Notification) (w : World)
      → is_some (w.breakers n.channel) ≡ true
      → let (reply, n', rows') = update fault now n w.rows in
        Safe n.id w (marked u s provider o reply n' (record w { rows = rows' }))
  unfolding update
  mark-Safe (some e) now n w k = unfold marked in (IsStep-refl, refl)
  mark-Safe none now n w k =
      let rest =
        marked-Safe (ok tt) (record n { updated_at = now })
          (record w { rows = update_where (λ r. r.id == n.id) (saved_row now n) w.rows }) refl k in
      let first : IsStep n.id w.rows w.breakers
          (update_where (λ r. r.id == n.id) (saved_row now n) w.rows) w.breakers =
        unfold save in IsStep-save none now n w in
      (IsStep-trans first rest.0, rest.1)

  loaded-Safe :
      (n : Notification) (w : World)
      → is_some (w.breakers n.channel) ≡ true
      → Safe n.id w (loaded u s provider o (ok n) w)
  unfolding loaded
  loaded-Safe n w k = elim (Bool-cases (is_final n.status)) [
    | inl y ↦ rw y (IsStep-refl, refl)
    | inr f ↦ rw f (
        mark-Safe (o.fails marking_processing) (o.clock marking_processing)
          (record n { status = processing }) w k)
  ]

  parsed-Safe :
      (fault : Option Error) (id : Uuid) (w : World)
      → IsTable w.rows
      → HasBreakers w.breakers
      → Safe id w (loaded u s provider o (get_by_id fault id w.rows) w)
  unfolding get_by_id
  parsed-Safe (some e) id w t b = unfold loaded in (IsStep-refl, refl)
  parsed-Safe none id w t b = elim (Option-cases (find_row id w.rows)) [
    | inl e ↦ rw e (unfold loaded in (IsStep-refl, refl))
    | inr (n, e) ↦
        let same = found_id id w.rows n e in
        rw e (
          subst (λ j. Safe j w (loaded u s provider o (ok n) w)) same
            (loaded-Safe n w (b n.channel (subst HasChannel e (find_row-HasChannel id w.rows t)))))
  ]

-- Process in every case, on a table and with a breaker for every valid channel: it comes back, the
-- table keeps its constraints, no breaker is lost, and no row is written but the notification's.
pub process_safe :
    (u : UuidText) (s : DeliveryService) (provider : SendRequest → Reply) (o : Outside)
    (text : String) (w : World)
    → IsTable w.rows
    → HasBreakers w.breakers
    → let (reply, w') = process u s provider o text w in
      (returns reply ≡ true)
      × IsTable w'.rows
      × HasBreakers w'.breakers
      × ((j : Uuid) → u.parse text ≢ some j → find_row j w'.rows ≡ find_row j w.rows)
unfolding process
process_safe u s provider o text w t b = elim (Option-cases (u.parse text)) [
  | inl e ↦ rw e (refl, t, b, λ j ne. refl)
  | inr (id, e) ↦
      let (st, back) = parsed-Safe u s provider o (o.fails loading) id w t b in
      rw e (back, st.table t, st.breakers b, λ j ne. st.others j (λ q. ne (rw q refl)))
]
