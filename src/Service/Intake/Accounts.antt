-- ===== src/Service/Intake/Accounts.antt =====
-- CreateBatch of internal/service/notification.go accounts for every request, and stores only what
-- it has checked.
use event_driven_notificatio.Prelude.{
  ℕ, suc, ◌+◌, ◌≤◌, ◌<◌, String, ◌≡◌, refl, sym, ap, ◌∙◌, true, false, Bool, Option, none, some,
  List, [], ◌∷◌, length, length-append, All, All-append, arith, Bool-cases, Option-cases, inl, inr,
  ◌⊎◌, is_some, if◌then◌else◌,
}
use mathlib.Core.Path.{subst}
use mathlib.Core.Bool.{false≢true}
use event_driven_notificatio.Domain.Errors.{Sentinel, Error, Result, ok, err, panics}
use event_driven_notificatio.Domain.Notification.{Notification, is_valid}
use event_driven_notificatio.Domain.Batch.{BatchResult, BatchError, max_batch_size}
use event_driven_notificatio.Queue.{Queues}
use event_driven_notificatio.Postgres.Notifications.{Rows, create_batch}
use event_driven_notificatio.Service.World.{UuidText}
use event_driven_notificatio.Service.Intake.{
  CreateNotificationRequest, Intake, IntakeOutside, validate_content, reason_of, rejection,
  batch_notification, reject, accept, take_in, batch_loop, no_intake, stored, store,
  create_notifications, is_later,
}

-- The channel and the content of a notification pass the checks.
abbrev pub IsChecked : Notification → Type 0
IsChecked n = (is_valid n.channel ≡ true) × (validate_content n.channel n.content ≡ none)

-- After a number of requests: each is accepted or rejected, the lists are as long as the counters
-- say, an error's index is one of the requests', and what was accepted is checked.
pub record IsBalanced (i : ℕ) (a : Intake) : Type 0 where
  pub counted : a.result.accepted + a.result.rejected ≡ i
  pub listed : length a.result.notifications ≡ a.result.accepted
  pub explained : length a.result.errors ≡ a.result.rejected
  pub placed : All (λ e. e.index < i) a.result.errors
  pub checked : All IsChecked a.notifications
  pub built : length a.notifications ≡ a.result.accepted

All-later :
    (i : ℕ) (es : List BatchError) → All (λ e. e.index < i) es → All (λ e. e.index < suc i) es
All-later i [] h = tt
All-later i (e ∷ es) h = (omega (arith, h.0), All-later i es h.1)

checked_by :
    (b : Bool) (r : Option Sentinel)
    → (if b then reason_of r else some "invalid channel") ≡ none
    → (b ≡ true) × (r ≡ none)
checked_by true none h = (refl, refl)
checked_by true (some x) h = absurd (false≢true (sym (ap is_some h)))
checked_by false r h = absurd (false≢true (sym (ap is_some h)))

rejection-IsChecked :
    (req : CreateNotificationRequest)
    → rejection req ≡ none
    → (is_valid req.channel ≡ true) × (validate_content req.channel req.content ≡ none)
unfolding rejection
rejection-IsChecked req h =
    checked_by (is_valid req.channel) (validate_content req.channel req.content) h

no_rows : (f : Option Error) (rows : Rows) → rows ≡ (create_batch f [] rows).1
unfolding create_batch
no_rows none rows = refl
no_rows (some e) rows = refl

-- A guard that answers an error has not fired when the answer is ok.
unguarded :
    (b : Bool) (e : Error) (rows : Rows) (q : Queues) (x : Result BatchResult × Rows × Queues)
    (result : BatchResult)
    → (if b then (err e, rows, q) else x).0 ≡ ok result
    → (b ≡ false) × (x.0 ≡ ok result)
unguarded true e rows q x result h = cc
unguarded false e rows q x result h = (refl, h)

module _ (u : UuidText) (o : IntakeOutside) where
  reject-IsBalanced :
      (i : ℕ) (why : String) (a : Intake) → IsBalanced i a → IsBalanced (suc i) (reject u o i why a)
  unfolding reject
  reject-IsBalanced i why a b = record {
    counted = omega (arith, b.counted);
    listed = b.listed;
    explained = length-append a.result.errors _ ∙ omega (arith, b.explained);
    placed =
        All-append _ a.result.errors _ (All-later i a.result.errors b.placed) (omega arith, tt);
    checked = b.checked;
    built = b.built;
  }

  accept-IsBalanced :
      (i : ℕ) (req : CreateNotificationRequest) (a : Intake)
      → (is_valid req.channel ≡ true) × (validate_content req.channel req.content ≡ none)
      → IsBalanced i a
      → IsBalanced (suc i) (accept u o i req a)
  unfolding accept batch_notification
  accept-IsBalanced i req a c b = record {
    counted = omega (arith, b.counted);
    listed = length-append a.result.notifications _ ∙ omega (arith, b.listed);
    explained = b.explained;
    placed = All-later i a.result.errors b.placed;
    checked =
        All-append _ a.notifications _ b.checked
          (elim (Bool-cases (is_later req.scheduled_at (o.scheduling_at i))) [
            | inl y ↦ rw y (c, tt)
            | inr k ↦ rw k (c, tt)
          ]);
    built = length-append a.notifications _ ∙ omega (arith, b.built);
  }

  take_in-IsBalanced :
      (i : ℕ) (req : CreateNotificationRequest) (a : Intake)
      → (rejection req ≡ none) ⊎ ((why : String) × (rejection req ≡ some why))
      → IsBalanced i a
      → IsBalanced (suc i) (take_in u o (rejection req) i req a)
  unfolding take_in
  take_in-IsBalanced i req a (inl e) b =
      subst (λ r. IsBalanced (suc i) (take_in u o r i req a)) (sym e)
        (accept-IsBalanced i req a (rejection-IsChecked req e) b)
  take_in-IsBalanced i req a (inr (why, e)) b =
      subst (λ r. IsBalanced (suc i) (take_in u o r i req a)) (sym e) (reject-IsBalanced i why a b)

  batch_loop-IsBalanced :
      (i : ℕ) (reqs : List CreateNotificationRequest) (a : Intake)
      → IsBalanced i a
      → IsBalanced (i + length reqs) (batch_loop u o i reqs a)
  unfolding batch_loop
  batch_loop-IsBalanced i [] a b = subst (λ k. IsBalanced k a) (omega arith) b
  batch_loop-IsBalanced i (req ∷ reqs) a b =
      subst (λ k. IsBalanced k (batch_loop u o (suc i) reqs (take_in u o (rejection req) i req a)))
        (omega arith)
        (batch_loop-IsBalanced (suc i) reqs _
          (take_in-IsBalanced i req a (Option-cases (rejection req)) b))

  no_intake-IsBalanced : (total : ℕ) → IsBalanced 0 (no_intake u o total)
  unfolding no_intake
  no_intake-IsBalanced total = record {
    counted = refl;
    listed = refl;
    explained = refl;
    placed = tt;
    checked = tt;
    built = refl;
  }

  take_in_total :
      (r : Option String) (i : ℕ) (req : CreateNotificationRequest) (a : Intake)
      → (take_in u o r i req a).result.total ≡ a.result.total
  unfolding take_in reject accept
  take_in_total none i req a = refl
  take_in_total (some why) i req a = refl

  batch_loop_total :
      (i : ℕ) (reqs : List CreateNotificationRequest) (a : Intake)
      → (batch_loop u o i reqs a).result.total ≡ a.result.total
  unfolding batch_loop
  batch_loop_total i [] a = refl
  batch_loop_total i (req ∷ reqs) a =
      batch_loop_total (suc i) reqs _ ∙ take_in_total (rejection req) i req a

  stored-ok :
      (reply : Result (Unit {0})) (a : Intake) (rows : Rows) (q : Queues) (result : BatchResult)
      → (stored u o reply a rows q).0 ≡ ok result
      → (result ≡ a.result) × ((stored u o reply a rows q).1 ≡ rows)
  unfolding stored
  stored-ok (err e) a rows q result h = cc
  stored-ok panics a rows q result h = cc
  stored-ok (ok _) a rows q result h = (cc, refl)

  -- What CreateBatch answers without an error is the loop's result, and it stores the loop's
  -- notifications.
  store-ok :
      (ns : List Notification) (a : Intake) (rows : Rows) (q : Queues) (result : BatchResult)
      → (store u o ns a rows q).0 ≡ ok result
      → (result ≡ a.result) × ((store u o ns a rows q).1 ≡ (create_batch o.insert_fails ns rows).1)
  unfolding store
  store-ok [] a rows q result h = (cc, no_rows o.insert_fails rows)
  store-ok (n ∷ ns) a rows q result h =
      stored-ok (create_batch o.insert_fails (n ∷ ns) rows).0 a _ q result h

-- A batch that CreateBatch takes has at most 1000 requests, and its result accounts for them: their
-- number is the total and the sum of the accepted and the rejected, there is an ID for each that is
-- accepted and an error for each that is rejected, and every error's index is that of a request.
-- As many notifications as are accepted go to the repository's CreateBatch, each with a valid channel
-- and a content that validateContent passes.
pub create_notifications_accounts :
    (u : UuidText) (o : IntakeOutside) (reqs : List CreateNotificationRequest) (rows : Rows)
    (q : Queues) (result : BatchResult)
    → (create_notifications u o reqs rows q).0 ≡ ok result
    → (length reqs ≤ max_batch_size)
      × (result.total ≡ length reqs)
      × (result.accepted + result.rejected ≡ length reqs)
      × (length result.notifications ≡ result.accepted)
      × (length result.errors ≡ result.rejected)
      × All (λ e. e.index < length reqs) result.errors
      × ((ns : List Notification) × All IsChecked ns
          × (length ns ≡ result.accepted)
          × ((create_notifications u o reqs rows q).1 ≡ (create_batch o.insert_fails ns rows).1))
unfolding create_notifications
create_notifications_accounts u o reqs rows q result h =
    let a = batch_loop u o 0 reqs (no_intake u o (length reqs)) in
    let b : IsBalanced (length reqs) a =
      subst (λ k. IsBalanced k a) (omega arith)
        (batch_loop-IsBalanced u o 0 reqs _ (no_intake-IsBalanced u o (length reqs))) in
    let (small, taken) = unguarded _ _ rows q (store u o a.notifications a rows q) result h in
    let (e, st) = store-ok u o a.notifications a rows q result taken in
    rw e (
      ground (arith, small),
      batch_loop_total u o 0 reqs _ ∙ (unfold no_intake in refl),
      b.counted,
      b.listed,
      b.explained,
      b.placed,
      (a.notifications, b.checked, b.built, rw small st),
    )
