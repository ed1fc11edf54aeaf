-- ===== src/RateLimit/Examples.antt =====
-- ratelimit.go: three requests to a limiter of two in a window of ten.
use oniworks.Prelude.{ℕ, ◌≤◌, List, [], ◌∷◌, arith}
use oniworks.Prelude.Text.{Text, codes}
use oniworks.RateLimit.{Event, request, query, clean}
use oniworks.RateLimit.Window.{within}
use oniworks.RateLimit.Run.{IsOrdered, outcome, window_bound}

abbrev client : Text
client = codes "10.0.0.1"

abbrev events : List (ℕ × Event)
events =
    (1, request client)
    ∷ (3, request client)
    ∷ (4, request client)
    ∷ (12, clean)
    ∷ (12, query client)
    ∷ (12, request client)
    ∷ []

events-IsOrdered : IsOrdered 0 events
events-IsOrdered =
    (omega arith, (omega arith, (omega arith, (omega arith, (omega arith, (omega arith, tt))))))

window_bound_example : within 10 2 (outcome 2 10 client events).1 ≤ 2
window_bound_example = window_bound 2 10 client events events-IsOrdered 2
