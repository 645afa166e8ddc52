-- ===== src/RateLimit/Tests.antt =====
-- A limiter of two requests in a second, at concrete requests, and the theorems at inputs that
-- meet their hypotheses.
use event_driven_notificatio.Prelude.{◌≤◌, ◌≡◌, refl, List, [], ◌∷◌, length, filterb, arith}
use event_driven_notificatio.RateLimit.{empty, sliding_window_script}
use event_driven_notificatio.RateLimit.History.{Request, serve, serve_history, in_window}
use event_driven_notificatio.RateLimit.Bound.{serve_within_limit, serve-eq-serve_history}

abbrev requests : List Request
requests = ("a", 10) ∷ ("b", 20) ∷ ("c", 900) ∷ ("d", 1010) ∷ ("e", 1015) ∷ ("f", 1020) ∷ []

-- The third comes too early, the fourth when the first has left the window.
serve-requests :
    serve 2 1000 empty [] requests ≡ ("a", 10) ∷ ("b", 20) ∷ ("d", 1010) ∷ ("f", 1020) ∷ []
unfolding serve sliding_window_script
serve-requests = refl

serve_within_limit_example :
    length (filterb (in_window 1000 1014) (serve 2 1000 empty [] requests)) ≤ 2
serve_within_limit_example =
    serve_within_limit 2 1000 1014 requests (omega arith) (omega arith) (ground arith)

serve-eq-serve_history_example : serve 2 1000 empty [] requests ≡ serve_history 2 1000 [] requests
serve-eq-serve_history_example =
    serve-eq-serve_history 2 1000 requests (omega arith) (omega arith) (ground arith)
