-- ===== src/Service/Scheduler/Handover.antt =====
-- The polls of internal/service/scheduler.go hand what they mark as queued over to the queue, if the
-- pipeline succeeds, and lose it if the pipeline fails.
use mathlib.Core.Path.{subst}
use event_driven_notificatio.Prelude.{
  ℕ, ◌≡◌, refl, sym, true, false, Bool, none, some, List, [], ◌∷◌, map, All,
}
use event_driven_notificatio.Domain.Errors.{Error, Result, ok, err, panics}
use event_driven_notificatio.Domain.Notification.{Uuid, Time, Notification}
use event_driven_notificatio.Queue.{QueueMessage, Queues, enqueue_batch}
use event_driven_notificatio.Queue.Batch.{Waits, enqueue_batch-Waits}
use event_driven_notificatio.Postgres.Notifications.{
  Rows, contains, get_scheduled_ready, get_retry_ready,
}
use event_driven_notificatio.Postgres.Notifications.Table.{IsTable}
use event_driven_notificatio.Postgres.Notifications.Pollers.{
  IsScheduledClaim, IsRetryClaim, get_scheduled_ready_lem, get_retry_ready_lem, claims-disjoint,
  not_ready, scheduled-IsTable, retry-IsTable,
}
use event_driven_notificatio.Postgres.Notifications.Claim.{IsClaim}
use event_driven_notificatio.Service.World.{UuidText}
use event_driven_notificatio.Service.Scheduler.{
  PollOutside, queue_message, enqueue_found, scheduler_poll, retry_poll,
}

-- No later poll takes any of the notifications.
abbrev pub IsStranded : Rows → Rows → (Uuid → Bool) → Time → ℕ → Type 0
IsStranded found rows locked later limit =
    (scheduled : Rows) × (retried : Rows) × ((get_scheduled_ready none locked later limit rows).0
      ≡ ok scheduled)
    × ((get_retry_ready none locked later limit rows).0 ≡ ok retried)
    × ((id : Uuid)
        → contains id found ≡ true
        → (contains id scheduled ≡ false) × (contains id retried ≡ false))

stranded :
    {ready : Notification → Bool} {due : Notification → ℕ} {held : Uuid → Bool} {n : ℕ} {now : Time}
    {rows rows' found : Rows} (locked : Uuid → Bool) (later : Time) (limit : ℕ)
    → IsClaim ready due held n now rows found rows'
    → IsTable rows'
    → IsStranded found rows' locked later limit
stranded {now = now} {rows' = rows'} locked later limit c t =
    let (scheduled, e, d) = get_scheduled_ready_lem locked later limit rows' t in
    let (retried, e', d') = get_retry_ready_lem locked later limit rows' t in
    (
      scheduled,
      retried,
      e,
      e',
      λ id h. (
        claims-disjoint _ now later (λ r. (not_ready later now r).0) c d id h,
        claims-disjoint _ now later (λ r. (not_ready later now r).1) c d' id h,
      ),
    )

module _ (u : UuidText) (o : PollOutside) (q : Queues) where
  All-map :
      (P : QueueMessage → Type 0) (ns : List Notification)
      → All P (map (queue_message u) ns)
      → All (λ n. P (queue_message u n)) ns
  All-map P [] h = tt
  All-map P (n ∷ ns) h = (h.0, All-map P ns h.1)

  enqueue_found-Waits :
      (ns : List Notification)
      → o.pipeline_fails ≡ none
      → All (λ n. Waits (enqueue_found u o (ok ns) q) (queue_message u n)) ns
  unfolding enqueue_found
  enqueue_found-Waits [] f = tt
  enqueue_found-Waits (n ∷ ns) f =
      subst
        (λ p.
          All
            (λ k.
              Waits (enqueue_batch p o.clock_ms (map (queue_message u) (n ∷ ns)) q).1
                (queue_message u k))
            (n ∷ ns))
        (sym f)
        (All-map _ (n ∷ ns) (enqueue_batch-Waits o.clock_ms (map (queue_message u) (n ∷ ns)) q).0)

  -- When the database and the pipeline answer, a poll of either kind on a table claims what is ready
  -- and no other transaction holds, but 100 at most, makes it queued, and puts what its query answers,
  -- which is all of that, into the queues: each of its messages waits on its channel.
  pub polls_hand_over :
      (rows : Rows)
      → IsTable rows
      → o.query_fails ≡ none
      → o.pipeline_fails ≡ none
      → (let (rows', q') = scheduler_poll u o rows q in
          (found : Rows) × ((get_scheduled_ready none o.locked o.now 100 rows).0 ≡ ok found)
          × IsScheduledClaim o.locked 100 o.now rows found rows'
          × All (λ n. Waits q' (queue_message u n)) found)
        × (let (rows', q') = retry_poll u o rows q in
            (found : Rows) × ((get_retry_ready none o.locked o.now 100 rows).0 ≡ ok found)
            × IsRetryClaim o.locked 100 o.now rows found rows'
            × All (λ n. Waits q' (queue_message u n)) found)
  unfolding scheduler_poll retry_poll
  polls_hand_over rows t d f = rw d (
    (let (found, e, c) = get_scheduled_ready_lem o.locked o.now 100 rows t in
        (found, e, c, rw e (enqueue_found-Waits found f))),
    (let (found, e, c) = get_retry_ready_lem o.locked o.now 100 rows t in
        (found, e, c, rw e (enqueue_found-Waits found f))),
  )

  unsent :
      (e : Error) (reply : Result (List Notification))
      → o.pipeline_fails ≡ some (e, 0)
      → enqueue_found u o reply q ≡ q
  unfolding enqueue_found enqueue_batch
  unsent e (err x) f = refl
  unsent e panics f = refl
  unsent e (ok []) f = refl
  unsent e (ok (n ∷ ns)) f = rw f refl

  -- When the database answers and the pipeline fails before any command, a poll of either kind on a
  -- table has claimed what was ready and no other transaction held, 100 at most, and leaves it queued
  -- with the queues unchanged; no later poll of either kind takes it, whatever the times, limits and
  -- locks.
  pub failed_polls_strand :
      (e : Error) (rows : Rows) (locked : Uuid → Bool) (later : Time) (limit : ℕ)
      → IsTable rows
      → o.query_fails ≡ none
      → o.pipeline_fails ≡ some (e, 0)
      → (let (rows', q') = scheduler_poll u o rows q in
          (found : Rows) × ((get_scheduled_ready none o.locked o.now 100 rows).0 ≡ ok found)
          × IsScheduledClaim o.locked 100 o.now rows found rows'
          × (q' ≡ q)
          × IsStranded found rows' locked later limit)
        × (let (rows', q') = retry_poll u o rows q in
            (found : Rows) × ((get_retry_ready none o.locked o.now 100 rows).0 ≡ ok found)
            × IsRetryClaim o.locked 100 o.now rows found rows'
            × (q' ≡ q)
            × IsStranded found rows' locked later limit)
  unfolding scheduler_poll retry_poll
  failed_polls_strand e rows locked later limit t d f = rw d (
    (let (found, answered, c) = get_scheduled_ready_lem o.locked o.now 100 rows t in
        (
          found,
          answered,
          c,
          unsent e _ f,
          stranded locked later limit c (scheduled-IsTable o.locked o.now 100 rows t),
        )),
    (let (found, answered, c) = get_retry_ready_lem o.locked o.now 100 rows t in
        (
          found,
          answered,
          c,
          unsent e _ f,
          stranded locked later limit c (retry-IsTable o.locked o.now 100 rows t),
        )),
  )
