-- ===== src/RateLimit/Bound.antt =====
-- What the sliding-window script of pkg/ratelimit/limiter.go guarantees over a sequence of calls.
use event_driven_notificatio.Prelude.{
  ℕ, ◌≤◌, ◌<◌, ◌≡◌, refl, Bool, true, false, List, [], ◌∷◌, ◌++◌, length, filterb, All, All-append,
  if◌then◌else◌, arith,
}
use event_driven_notificatio.RateLimit.{Window, empty, sliding_window_script}
use event_driven_notificatio.RateLimit.History.{
  Request, serve, serve_history, in_window, Chronological, Differs, DistinctIds,
}
use event_driven_notificatio.RateLimit.Tracks.{Tracks, script-Tracks}

abbrev Unused : List Request → List Request → Type 0
Unused log rs = All (λ e. All (Differs e) rs) log

Unused-head :
    (log : List Request) (r : Request) (rs : List Request)
    → Unused log (r ∷ rs)
    → All (λ e. Differs e r) log
Unused-head [] r rs u = tt
Unused-head (e ∷ log) r rs u = (u.0.0, Unused-head log r rs u.1)

Unused-tail :
    (log : List Request) (r : Request) (rs : List Request) → Unused log (r ∷ rs) → Unused log rs
Unused-tail [] r rs u = tt
Unused-tail (e ∷ log) r rs u = (u.0.1, Unused-tail log r rs u.1)

Unused-next :
    (granted : Bool) (log : List Request) (r : Request) (rs : List Request)
    → Unused log (r ∷ rs)
    → All (Differs r) rs
    → Unused (if granted then log ++ r ∷ [] else log) rs
Unused-next false log r rs u d = Unused-tail log r rs u
Unused-next true log r rs u d =
    All-append (λ e. All (Differs e) rs) log (r ∷ []) (Unused-tail log r rs u) (d, tt)

serve-Tracks :
    (limit window last : ℕ) (w : Window) (log rs : List Request)
    → Tracks limit window last w log
    → Chronological last rs
    → 0 < window
    → DistinctIds rs
    → Unused log rs
    → (serve limit window w log rs ≡ serve_history limit window log rs)
      × ((t : ℕ) → length (filterb (in_window window t) (serve limit window w log rs)) ≤ limit)
unfolding serve serve_history
serve-Tracks limit window last w log [] v c pos d u = (refl, v.within)
serve-Tracks limit window last w log (r ∷ rs) v c pos d u =
    let (granted, w') = sliding_window_script limit window r.1 r.0 w in
    let (same, v') =
      script-Tracks limit window last r.1 r.0 w log v c.0 pos (Unused-head log r rs u) in
    let log' : List Request = if granted then log ++ r ∷ [] else log in
    rw (← same)
      (serve-Tracks limit window r.1 w' log' rs v' c.1 pos d.1 (Unused-next granted log r rs u d.0))

empty-Tracks : (limit window : ℕ) → Tracks limit window 0 empty []
empty-Tracks limit window = record {
  kept = refl;
  past = tt;
  outlived = tt;
  within = λ t. omega arith;
}

-- From a missing key, whatever requests come in the order of their times under distinct IDs, no
-- window of the given length, wherever it ends, holds more than `limit` of the requests let
-- through.
pub serve_within_limit :
    (limit window t : ℕ) (rs : List Request)
    → 0 < window
    → Chronological 0 rs
    → DistinctIds rs
    → length (filterb (in_window window t) (serve limit window empty [] rs)) ≤ limit
serve_within_limit limit window t rs pos c d =
    (serve-Tracks limit window 0 empty [] rs (empty-Tracks limit window) c pos d tt).1 t

-- Under the same conditions the script, which keeps only the recent requests and lets the key
-- expire, lets through exactly the requests that a decision by the whole history would.
pub serve-eq-serve_history :
    (limit window : ℕ) (rs : List Request)
    → 0 < window
    → Chronological 0 rs
    → DistinctIds rs
    → serve limit window empty [] rs ≡ serve_history limit window [] rs
serve-eq-serve_history limit window rs pos c d =
    (serve-Tracks limit window 0 empty [] rs (empty-Tracks limit window) c pos d tt).0
