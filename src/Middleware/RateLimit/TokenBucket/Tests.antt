-- ===== src/Middleware/RateLimit/TokenBucket/Tests.antt =====
-- Runs of the token bucket.
use rivaas.Prelude.{◌+◌, ◌*◌, ◌≡◌, refl, List, [], ◌∷◌, codes, eqb, find_key, put_key}
use rivaas.Middleware.RateLimit.Float64.{second, billionths}
use rivaas.Middleware.RateLimit.TokenBucket.{new_store, allow, sweep}
use rivaas.Middleware.RateLimit.TokenBucket.Limit.{Event, request, cleanup, run}

-- Two at once with a burst of two, none after half a second, one after a second, and two after a
-- cleanup.
abbrev day : List Event
day =
    request (codes "ann") (5 * second)
    ∷ request (codes "bob") (5 * second)
    ∷ request (codes "ann") (5 * second)
    ∷ request (codes "ann") (5 * second + 500000000)
    ∷ request (codes "ann") (6 * second)
    ∷ cleanup (8000 * second)
    ∷ request (codes "ann") (8000 * second)
    ∷ request (codes "ann") (8000 * second)
    ∷ request (codes "ann") (8000 * second)
    ∷ []

five_pass_in_a_day : (run billionths (codes "ann") day (new_store 1 2, 0)).1 ≡ 5
unfolding run allow sweep new_store find_key put_key eqb
five_pass_in_a_day = refl
