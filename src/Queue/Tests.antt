-- ===== src/Queue/Tests.antt =====
-- The queues at concrete messages, and the theorems at inputs that meet their hypotheses.
use event_driven_notificatio.Prelude.{◌≡◌, refl, ◌⊎◌, none, some, List, [], ◌∷◌, arith}
use event_driven_notificatio.Domain.Errors.{foreign, ok}
use event_driven_notificatio.Queue.{QueueMessage, Queues, queue_key, dequeue, precedes}
use event_driven_notificatio.Queue.History.{Call, enqueues, enqueues_batch, run, step, no_queues}
use event_driven_notificatio.Queue.Order.{IsFirst, dequeue-IsFirst}

abbrev low : QueueMessage
low = record { notification_id = "n1"; channel = "sms"; priority = 2; trace_parent = "" }

abbrev high : QueueMessage
high = record { notification_id = "n2"; channel = "sms"; priority = 0; trace_parent = "" }

abbrev high_later : QueueMessage
high_later = record { notification_id = "n3"; channel = "sms"; priority = 0; trace_parent = "" }

abbrev history : List Call
history =
    enqueues none 1000 low
    ∷ enqueues none 2000 high
    ∷ enqueues_batch (some (foreign "broken pipe", 1)) (λ i. 3000) (high_later ∷ low ∷ [])
    ∷ []

-- The high priorities come first, in the order of their times.
run-history :
    (run no_queues history).waiting (queue_key "sms")
    ≡ (2000, high) ∷ (3000, high_later) ∷ (20000000001000, low) ∷ []
unfolding run step precedes
run-history = refl

dequeue-IsFirst_example :
    let q = run no_queues history in
    let (reply, q') = dequeue none "sms" q in
    ((reply ≡ ok none) × (q' ≡ q) × (q.waiting (queue_key "sms") ≡ []))
    ⊎ ((m : QueueMessage) × (reply ≡ ok (some m)) × IsFirst m (queue_key "sms") q q')
dequeue-IsFirst_example =
    dequeue-IsFirst history "sms" (omega arith, (omega arith, ((λ i. omega arith), tt)))

abbrev one : Queues
one = record { waiting = λ k. (5, high) ∷ []; in_process = λ k. low ∷ high ∷ [] }
