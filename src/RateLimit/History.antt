-- ===== src/RateLimit/History.antt =====
-- Requests to the limiter of pkg/ratelimit/limiter.go in the order of their times, what the script
-- lets through, and the decision by the whole history.
use event_driven_notificatio.Prelude.{
  ℕ, ◌+◌, ◌≤◌, ◌<◌, String, ◌≡◌, refl, Bool, false, not, ◌&&◌, Option, none, some, List, [], ◌∷◌,
  ◌++◌, length, filterb, All, ltb, leb, str_eq, if◌then◌else◌, arith,
}
use event_driven_notificatio.RateLimit.{Window, sliding_window_script}

-- A request: its unique ID and its time.
abbrev pub Request : Type 0
Request = String × ℕ

-- The requests that the script lets through, appended to `log`.
unfoldable pub serve : ℕ → ℕ → Window → List Request → List Request → List Request
serve limit window w log [] = log
serve limit window w log (r ∷ rs) =
    let (granted, w') = sliding_window_script limit window r.1 r.0 w in
    serve limit window w' (if granted then log ++ r ∷ [] else log) rs

-- Whether a request falls into the window that ends at `t`.
abbrev pub in_window : ℕ → ℕ → Request → Bool
in_window window t r = leb r.1 t && ltb t (r.1 + window)

abbrev pub live : ℕ → ℕ → Request → Bool
live window now r = not (leb (r.1 + window) now)

-- Times that do not fall, from `last` on.
abbrev pub Chronological : ℕ → List Request → Type 0
Chronological last [] = Unit
Chronological last (r ∷ rs) = (last ≤ r.1) × Chronological r.1 rs

abbrev pub Differs : Request → Request → Type 0
Differs a b = str_eq a.0 b.0 ≡ false

-- No unique ID occurs twice.
abbrev pub DistinctIds : List Request → Type 0
DistinctIds [] = Unit
DistinctIds (r ∷ rs) = All (Differs r) rs × DistinctIds rs

abbrev pub Outlives : ℕ → Option ℕ → List Request → Type 0
Outlives window none log = Unit
Outlives window (some e) log = All (λ r. r.1 + window ≤ e) log

pub filter-live_mono :
    (window last now : ℕ) (log : List Request)
    → last ≤ now
    → filterb (live window now) (filterb (live window last) log) ≡ filterb (live window now) log
filter-live_mono window last now [] h = refl
filter-live_mono window last now (r ∷ log) h =
    ground (arith, filter-live_mono window last now log h)

pub filter-live_dead :
    (window e now : ℕ) (log : List Request)
    → All (λ r. r.1 + window ≤ e) log
    → e < now
    → filterb (live window now) log ≡ []
filter-live_dead window e now [] p h = refl
filter-live_dead window e now (r ∷ log) p h =
    ground (arith, filter-live_dead window e now log p.1 h)

pub count-le-live :
    (window t now : ℕ) (log : List Request)
    → now ≤ t
    → length (filterb (in_window window t) log) ≤ length (filterb (live window now) log)
count-le-live window t now [] h = omega arith
count-le-live window t now (r ∷ log) h = ground (arith, count-le-live window t now log h)

pub count_now :
    (window now : ℕ) (log : List Request)
    → All (λ r. r.1 ≤ now) log
    → filterb (in_window window now) log ≡ filterb (live window now) log
count_now window now [] p = refl
count_now window now (r ∷ log) p = ground (arith, count_now window now log p.1)

pub filter-Differs :
    (id : String) (now : ℕ) (p : Request → Bool) (log : List Request)
    → All (λ r. Differs r (id, now)) log
    → filterb (λ (e : Request). not (str_eq e.0 id)) (filterb p log) ≡ filterb p log
filter-Differs id now p [] h = refl
filter-Differs id now p (r ∷ log) h = ground (arith, filter-Differs id now p log h.1)

-- The decision by the whole history: a request passes if fewer than `limit` of those that passed
-- lie in the window that ends at its time.
unfoldable pub serve_history : ℕ → ℕ → List Request → List Request → List Request
serve_history limit window log [] = log
serve_history limit window log (r ∷ rs) =
    let granted = ltb (length (filterb (in_window window r.1) log)) limit in
    serve_history limit window (if granted then log ++ r ∷ [] else log) rs
