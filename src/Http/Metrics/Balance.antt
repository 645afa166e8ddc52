-- ===== src/Http/Metrics/Balance.antt =====
-- The balance of the counters of internal/adapter/handler/metrics.go.
use event_driven_notificatio.Prelude.{
  ℕ, zero, suc, ◌+◌, ◌≤◌, ◌≡◌, Option, none, some, List, [], ◌∷◌, arith,
}
use event_driven_notificatio.Service.World.{Recorded, delivery, failure}
use event_driven_notificatio.Http.Metrics.{
  Counters, no_counts, record_delivery, record_failed, record_all,
}

-- The pipelines that failed.
abbrev pub broken : List (Recorded × Option ℕ) → ℕ
broken [] = 0
broken ((r, none) ∷ rs) = broken rs
broken ((r, some k) ∷ rs) = suc (broken rs)

-- The total is at most the sum of the outcomes, and less by `lost` at most.
abbrev pub IsBalanced : ℕ → Counters → Type 0
IsBalanced lost c =
    (c.processed ≤ c.delivered + c.failed) × (c.delivered + c.failed ≤ c.processed + lost)

abbrev loss : Option ℕ → ℕ
loss none = 0
loss (some k) = 1

record_delivery-IsBalanced :
    (fails : Option ℕ) (ms lost : ℕ) (c : Counters)
    → IsBalanced lost c
    → IsBalanced (loss fails + lost) (record_delivery fails ms c)
unfolding record_delivery
record_delivery-IsBalanced none ms lost c (a, b) = (omega arith, omega arith)
record_delivery-IsBalanced (some zero) ms lost c (a, b) = (omega arith, omega arith)
record_delivery-IsBalanced (some (suc zero)) ms lost c (a, b) = (omega arith, omega arith)
record_delivery-IsBalanced (some (suc (suc zero))) ms lost c (a, b) = (omega arith, omega arith)
record_delivery-IsBalanced (some (suc (suc (suc zero)))) ms lost c (a, b) =
    (omega arith, omega arith)
record_delivery-IsBalanced (some (suc (suc (suc (suc k))))) ms lost c (a, b) =
    (omega arith, omega arith)

record_failed-IsBalanced :
    (fails : Option ℕ) (lost : ℕ) (c : Counters)
    → IsBalanced lost c
    → IsBalanced (loss fails + lost) (record_failed fails c)
unfolding record_failed
record_failed-IsBalanced none lost c (a, b) = (omega arith, omega arith)
record_failed-IsBalanced (some zero) lost c (a, b) = (omega arith, omega arith)
record_failed-IsBalanced (some (suc zero)) lost c (a, b) = (omega arith, omega arith)
record_failed-IsBalanced (some (suc (suc zero))) lost c (a, b) = (omega arith, omega arith)
record_failed-IsBalanced (some (suc (suc (suc k)))) lost c (a, b) = (omega arith, omega arith)

broken-cons :
    (r : Recorded) (fails : Option ℕ) (rs : List (Recorded × Option ℕ))
    → broken ((r, fails) ∷ rs) ≡ loss fails + broken rs
broken-cons r none rs = omega arith
broken-cons r (some k) rs = omega arith

record_all-IsBalanced_from :
    (rs : List (Recorded × Option ℕ)) (lost : ℕ) (c : Counters)
    → IsBalanced lost c
    → IsBalanced (broken rs + lost) (record_all rs c)
unfolding record_all
record_all-IsBalanced_from [] lost c h = (omega (arith, h.0), omega (arith, h.1))
record_all-IsBalanced_from ((delivery ms, fails) ∷ rs) lost c h =
    let k =
      record_all-IsBalanced_from rs (loss fails + lost) _
        (record_delivery-IsBalanced fails ms lost c h) in
    (k.0, omega (arith, k.1, broken-cons (delivery ms) fails rs))
record_all-IsBalanced_from ((failure, fails) ∷ rs) lost c h =
    let k =
      record_all-IsBalanced_from rs (loss fails + lost) _
        (record_failed-IsBalanced fails lost c h) in
    (k.0, omega (arith, k.1, broken-cons failure fails rs))

-- Whatever the delivery service records, the total number of processed notifications is at most the
-- sum of the delivered and the failed, and short of it by the number of pipelines that failed at most:
-- where none fails, it is the sum.
pub record_all-IsBalanced :
    (rs : List (Recorded × Option ℕ)) → IsBalanced (broken rs) (record_all rs no_counts)
record_all-IsBalanced rs =
    let k = record_all-IsBalanced_from rs 0 no_counts (omega arith, omega arith) in
    (k.0, omega (arith, k.1))
