-- ===== src/Middleware/RateLimit/Handler.antt =====
-- The handlers of the two limiters (middleware/ratelimit/ratelimit.go: WithTokenBucket and
-- WithSlidingWindow): the headers they set, and whether the request goes on. The values of the
-- headers stand as numbers, that of the limit without the length of the window. The key of a request
-- is an argument, and so is its time, which stands for all readings of the clock in one request, and
-- whether it was aborted from elsewhere. What a callback writes is not followed.
pub mod Passed
pub mod Within
pub mod Failures
mod Tests
use rivaas.Prelude.{
  ℕ, Bool, true, false, not, List, [], ◌∷◌, ◌++◌, Option, none, some, if◌then◌else◌, leb, Bytes,
  codes, ◌/◌, ◌*◌, ◌+◌, ◌-◌,
}
use rivaas.Middleware.RateLimit.TokenBucket
use rivaas.Middleware.RateLimit.TokenBucket.{Answer, allow}
use rivaas.Middleware.RateLimit.Float64.{Float64, second}
use rivaas.Prelude.Int.{ℤ, pos, sub_ℕ, ltb_ℤ, pos_part}
use rivaas.Middleware.RateLimit.Window
use rivaas.Middleware.RateLimit.Window.{Counts, Entries, get_counts, incr}

-- CommonOptions, with a custom handler or without one.
pub record CommonOptions : Type 0 where
  pub headers : Bool
  pub enforce : Bool
  pub on_exceeded : Bool

-- What a limiter does with a request.
pub record Outcome : Type 0 where
  pub sent : List (Bytes × ℕ)
  pub called_back : Bool
  pub status : Option ℕ
  pub aborted : Bool
  pub next : Bool

unfoldable pub rate_headers : Bool → ℕ → ℕ → ℕ → List (Bytes × ℕ)
rate_headers true limit remaining reset =
    (codes "RateLimit-Limit", limit)
    ∷ (codes "RateLimit-Remaining", remaining)
    ∷ (codes "RateLimit-Reset", reset)
    ∷ []
rate_headers false limit remaining reset = []

-- A request that goes on, unless it was aborted.
unfoldable pub passed : Bool → List (Bytes × ℕ) → Outcome
passed aborted sent = record {
  sent = sent;
  called_back = false;
  status = none;
  aborted = aborted;
  next = not aborted;
}

-- A request over the limit: it is handed to the callback, refused, or passed on if the limiter only
-- reports.
unfoldable pub exceeded : CommonOptions → Bool → ℕ → List (Bytes × ℕ) → Outcome
unfolding passed
exceeded opts aborted reset sent =
    if opts.on_exceeded
    then record { sent = sent; called_back = true; status = none; aborted = true; next = false }
    else if opts.enforce
    then record {
      sent = sent ++ (codes "Retry-After", reset) ∷ [];
      called_back = false;
      status = some 429;
      aborted = true;
      next = false;
    }
    else passed aborted sent

-- WindowStore, the interface. A store may fail: `none` and `false`.
pub record WindowStore (S : Type 0) : Type 0 where
  pub get_counts : Bytes → ℕ → ℕ → S → S × Option Counts
  pub incr : Bytes → ℕ → ℕ → S → S × Bool

-- InMemoryStore, which does not fail.
unfoldable pub in_memory : WindowStore Entries
unfolding get_counts incr
in_memory = record {
  get_counts =
      λ key window now s. let (s', counts) = get_counts key window now s in (s', some counts);
  incr = λ key window now s. (incr key window now s, true);
}

-- The store failed: the request goes on, uncounted.
unfoldable pub unlimited : Bool → Outcome
unlimited aborted = record {
  sent = [];
  called_back = false;
  status = none;
  aborted = aborted;
  next = true;
}

-- min(now.Sub(time.Unix(windowStart, 0)), sw.Window)
unfoldable pub elapsed_in : ℕ → ℕ → Counts → ℤ
elapsed_in window now c =
    let since = sub_ℕ now (c.window_start * second) in
    if ltb_ℤ (pos window) since then pos window else since

module _ {W : Type 0} (f : Float64 W) where
  -- WithTokenBucket
  unfoldable pub with_token_bucket :
      CommonOptions → Bytes → ℕ → TokenBucket.Store W → TokenBucket.Store W × Outcome
  unfolding allow rate_headers exceeded passed
  with_token_bucket opts key now s =
      let (s', answer) = allow f key now s in
      let sent = rate_headers opts.headers s.burst answer.remaining answer.reset_seconds in
      (
        s',
        if not answer.allowed
            then exceeded opts false answer.reset_seconds sent
            else passed false sent,
      )

  -- prevWeight
  unfoldable pub prev_weight : ℕ → ℤ → W
  prev_weight window elapsed =
      f.maximum (f.of_int (pos 0))
        (f.sub (f.of_int (pos 1)) (f.div (f.of_int elapsed) (f.of_int (pos window))))

  -- The requests of this window, and the share of those of the last one.
  unfoldable pub effective_usage : ℕ → ℕ → Counts → W
  unfolding elapsed_in prev_weight
  effective_usage window now c =
      f.add (f.of_int (pos c.current))
        (f.mul (f.of_int (pos c.previous)) (prev_weight window (elapsed_in window now c)))

  unfoldable pub remaining : ℕ → W → ℕ
  remaining limit usage = pos_part (f.to_int (f.sub (f.of_int (pos limit)) usage))

  unfoldable pub after_incr : ℕ → ℕ → CommonOptions → Bool → ℕ → Counts → Outcome
  unfolding effective_usage rate_headers exceeded passed remaining
  after_incr window limit opts aborted now c =
      let usage = effective_usage window now c in
      let reset = c.window_start + window / second - now / second in
      let sent = rate_headers opts.headers limit (remaining limit usage) reset in
      if ltb_ℤ (f.to_int usage) (pos limit)
      then passed aborted sent
      else exceeded opts aborted reset sent

  unfoldable pub after_counts :
      {S : Type 0}
      → WindowStore S
      → ℕ
      → ℕ
      → CommonOptions
      → Bool
      → Bytes
      → ℕ
      → S
      → Option Counts
      → S × Outcome
  unfolding after_incr unlimited
  after_counts store window limit opts aborted key now s none = (s, unlimited aborted)
  after_counts store window limit opts aborted key now s (some c) =
      let (s', done) = store.incr key window now s in
      (s', if done then after_incr window limit opts aborted now c else unlimited aborted)

  -- WithSlidingWindow
  unfoldable pub with_sliding_window :
      {S : Type 0} → WindowStore S → ℕ → ℕ → CommonOptions → Bool → Bytes → ℕ → S → S × Outcome
  unfolding after_counts
  with_sliding_window store window limit opts aborted key now s =
      let (s', counts) = store.get_counts key window now s in
      after_counts store window limit opts aborted key now s' counts
