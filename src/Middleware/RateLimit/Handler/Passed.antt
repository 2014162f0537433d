-- ===== src/Middleware/RateLimit/Handler/Passed.antt =====
-- How many requests the handlers of the limiters let through.
use rivaas.Prelude.{
  ℕ, ◌+◌, ◌*◌, ◌≤◌, ◌≡◌, refl, true, ◌||◌, List, [], ◌∷◌, arith, length, if◌then◌else◌, Bytes, eqb,
  Bool-cases, inl, inr,
}
use rivaas.Middleware.RateLimit.TokenBucket
use rivaas.Middleware.RateLimit.TokenBucket.{allow, new_store}
use rivaas.Middleware.RateLimit.Float64.{Float64, IsRounded}
use rivaas.Middleware.RateLimit.TokenBucket.Paid.{count_if}
use rivaas.Middleware.RateLimit.TokenBucket.Limit.{
  Event, request, cleanup, run, InOrder, run-new_store-le,
}
use rivaas.Middleware.RateLimit.Handler.{CommonOptions, with_token_bucket}

-- A limiter that does not only report.
abbrev pub IsStrict : CommonOptions → Type 0
IsStrict opts = (opts.on_exceeded || opts.enforce) ≡ true

module _ {W : Type 0} (f : Float64 W) where
  next-with_token_bucket :
      (opts : CommonOptions) (key : Bytes) (now : ℕ) (s : TokenBucket.Store W)
      → IsStrict opts
      → (with_token_bucket f opts key now s).1.next ≡ (allow f key now s).1.allowed
  unfolding with_token_bucket
  next-with_token_bucket opts key now s strict = elim (Bool-cases (allow f key now s).1.allowed) [
    | inl goes ↦ rw goes refl
    | inr refused ↦ rw refused (ground arith)
  ]

  -- The requests of a key that reach the next handler, among those of all keys.
  unfoldable pub serve :
      CommonOptions → Bytes → List Event → TokenBucket.Store W × ℕ → TokenBucket.Store W × ℕ
  unfolding count_if
  serve opts key [] (s, n) = (s, n)
  serve opts key (cleanup now ∷ es) (s, n) = serve opts key es (TokenBucket.sweep now s, n)
  serve opts key (request k now ∷ es) (s, n) =
      let (s', outcome) = with_token_bucket f opts k now s in
      serve opts key es (s', if eqb k key then count_if outcome.next n else n)

  serve-eq-run :
      (opts : CommonOptions) (key : Bytes) (es : List Event) (s : TokenBucket.Store W) (n : ℕ)
      → IsStrict opts
      → serve opts key es (s, n) ≡ run f key es (s, n)
  unfolding serve run with_token_bucket
  serve-eq-run opts key [] s n strict = refl
  serve-eq-run opts key (cleanup now ∷ es) s n strict =
      serve-eq-run opts key es (TokenBucket.sweep now s) n strict
  serve-eq-run opts key (request k now ∷ es) s n strict =
      rw (next-with_token_bucket opts k now s strict) (serve-eq-run opts key es _ _ strict)

  -- Of the requests of one key that reach the token bucket's handler over a new store from `t0` on, in
  -- the order of time and with rounds of the cleanup between them, those that go on to the next handler
  -- are at most `burst`, what the rate gives from `t0` to `end`, and the slack of the rounding for each
  -- event, if the handler refuses requests or calls back, and if a bucket fills up within the hour after
  -- which the cleanup drops it.
  pub serve-new_store-le :
      (opts : CommonOptions) (rate burst slack t0 end : ℕ) (key : Bytes) (es : List Event)
      (r : IsRounded f rate burst slack)
      → IsStrict opts
      → burst ≤ 3600 * rate
      → InOrder t0 es end
      → (serve opts key es (new_store rate burst, 0)).1 * r.unit + t0 * r.step
        ≤ burst * r.unit + end * r.step + length es * slack
  serve-new_store-le opts rate burst slack t0 end key es r strict small o =
      rw (serve-eq-run opts key es (new_store rate burst) 0 strict)
        (run-new_store-le f rate burst slack t0 end key es r small o)
