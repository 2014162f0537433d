-- ===== src/Middleware/RateLimit/Handler/Tests.antt =====
-- Requests that come to the limiters.
use rivaas.Prelude.{
  ℕ, ◌*◌, ◌+◌, ◌≡◌, ◌≤◌, ◌↔◌, refl, length, true, false, List, [], ◌∷◌, some, arith, Bytes, codes,
  eqb, find_key, put_key,
}
use rivaas.Middleware.RateLimit.Float64.{
  second, billionths, billionths-IsRounded, billionths-IsSharing,
}
use rivaas.Prelude.Int.{pos, ltb_ℤ}
use rivaas.Middleware.RateLimit.TokenBucket.{new_store}
use rivaas.Middleware.RateLimit.TokenBucket.Limit.{Event, request, cleanup}
use rivaas.Middleware.RateLimit.Window.{Counts, window_start_of}
use rivaas.Middleware.RateLimit.Handler.{
  CommonOptions, WindowStore, effective_usage, with_sliding_window,
}
use rivaas.Middleware.RateLimit.Handler.Passed.{serve, serve-new_store-le}
use rivaas.Middleware.RateLimit.Handler.Within.{serve_window, serve_window-le}
use rivaas.Middleware.RateLimit.Handler.Failures.{with_sliding_window-refuses_iff}

abbrev strict : CommonOptions
strict = record { headers = true; enforce = true; on_exceeded = false }

abbrev burst_of_three : List Event
burst_of_three =
    request (codes "ann") (5 * second)
    ∷ cleanup (5 * second)
    ∷ request (codes "ann") (5 * second)
    ∷ request (codes "ann") (5 * second)
    ∷ []

serve-new_store-le_example :
    (serve billionths strict (codes "ann") burst_of_three (new_store 1 2, 0)).1 * second
      + 5 * second * 1
    ≤ 2 * second + 5 * second * 1 + length burst_of_three * 0
serve-new_store-le_example =
    serve-new_store-le billionths strict 1 2 0 (5 * second) (5 * second) (codes "ann")
      burst_of_three (billionths-IsRounded 1 2) refl (omega arith) (omega arith)

abbrev minute : List (Bytes × ℕ)
minute =
    (codes "ann", 61 * second)
    ∷ (codes "bob", 62 * second)
    ∷ (codes "ann", 63 * second)
    ∷ (codes "ann", 64 * second)
    ∷ []

serve_window-le_example :
    (serve_window billionths (60 * second) 2 strict (codes "ann") minute ([], 0)).1 ≤ 2
unfolding window_start_of find_key
serve_window-le_example =
    serve_window-le billionths 100 (60 * second) 2 60 strict (codes "ann") minute []
      (billionths-IsSharing 100) (omega arith) refl (refl, (refl, (refl, (refl, tt)))) (omega arith)

two_pass_in_a_minute :
    (serve_window billionths (60 * second) 2 strict (codes "ann") minute ([], 0)).1 ≡ 2
unfolding serve_window eqb window_start_of find_key put_key
two_pass_in_a_minute = refl

-- A store whose counter cannot be written.
abbrev broken : WindowStore ℕ
broken = record {
  get_counts =
      λ key window now s. (s, some record { current = 9; previous = 0; window_start = 60 });
  incr = λ key window now s. (s, false);
}

with_sliding_window-refuses_iff_example :
    ((with_sliding_window billionths broken
        (60 * second)
        2
        strict
        false
        (codes "ann")
        (61 * second)
        0).1.next
      ≡ false)
    ↔ ((c : Counts) × ((broken.get_counts (codes "ann") (60 * second) (61 * second) 0).1 ≡ some c)
        × ((broken.incr
              (codes "ann")
              (60 * second)
              (61 * second)
              (broken.get_counts (codes "ann") (60 * second) (61 * second) 0).0).1
            ≡ true)
        × (ltb_ℤ
              (billionths.to_int (effective_usage billionths (60 * second) (61 * second) c))
              (pos 2)
            ≡ false))
with_sliding_window-refuses_iff_example =
    with_sliding_window-refuses_iff billionths broken (60 * second) 2 strict (codes "ann")
      (61 * second) 0 refl
