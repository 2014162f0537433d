-- ===== src/Middleware/RateLimit/Window/Tests.antt =====
-- Runs of the store of the sliding window.
use rivaas.Prelude.{◌*◌, ◌≡◌, refl, List, [], ◌∷◌, Option, some, arith, codes, eqb, find_key}
use rivaas.Middleware.RateLimit.Float64.{second}
use rivaas.Middleware.RateLimit.Window.{Counts, window_start_of}
use rivaas.Middleware.RateLimit.Window.History.{
  Call, counted, asked, cleaned, run, view, history, find_key-run,
}

-- Three calls in one minute, none for an hour, then one: the count from an hour ago is the previous.
abbrev idle_hour : List Call
idle_hour =
    counted (codes "ann") (61 * second)
    ∷ counted (codes "ann") (62 * second)
    ∷ cleaned (63 * second)
    ∷ counted (codes "bob") (63 * second)
    ∷ counted (codes "ann") (64 * second)
    ∷ asked (codes "ann") (3700 * second)
    ∷ counted (codes "ann") (3701 * second)
    ∷ []

abbrev after_hour : Option Counts
after_hour = some record { current = 1; previous = 3; window_start = 3660 }

after_idle_hour : view (history (codes "ann") (60 * second) idle_hour []) ≡ after_hour
unfolding view history window_start_of eqb
after_idle_hour = refl

find_key-run_example :
    find_key (codes "ann") (run (60 * second) idle_hour [])
    ≡ view (history (codes "ann") (60 * second) idle_hour [])
unfolding window_start_of
find_key-run_example = find_key-run (codes "ann") (60 * second) idle_hour (omega arith)
