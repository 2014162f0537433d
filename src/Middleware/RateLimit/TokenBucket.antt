-- ===== src/Middleware/RateLimit/TokenBucket.antt =====
-- The token bucket (middleware/ratelimit/stores.go: InMemoryTokenBucketStore). Time is in
-- nanoseconds, and the operations on float64 are a parameter. A rate of zero divides by zero in the
-- source.
pub mod Paid
pub mod Limit
mod Tests
use rivaas.Prelude.{
  ℕ, ◌+◌, ◌*◌, max, Bool, true, false, List, [], ◌∷◌, Option, none, some, ltb, if◌then◌else◌, Bytes,
  find_key, put_key, delete_where,
}
use rivaas.Prelude.Int.{ℤ, pos, pos_part, sub_ℕ}
use rivaas.Middleware.RateLimit.Float64.{Float64, second}

-- tokenBucketEntry
pub record Bucket (W : Type 0) : Type 0 where
  pub tokens : W
  pub last_update : ℕ

pub record Store (W : Type 0) : Type 0 where
  pub rate : ℕ
  pub burst : ℕ
  pub entries : List (Bytes × Bucket W)

-- The results of Allow.
pub record Answer : Type 0 where
  pub allowed : Bool
  pub remaining : ℕ
  pub reset_seconds : ℕ

-- NewInMemoryTokenBucketStore
unfoldable pub new_store : {W : Type 0} → ℕ → ℕ → Store W
new_store rate burst = record { rate = rate; burst = burst; entries = [] }

-- One round of cleanupLoop: the entries that were not used for an hour are dropped.
abbrev pub is_stale : {W : Type 0} → ℕ → Bucket W → Bool
is_stale now b = ltb (b.last_update + 3600 * second) now

unfoldable pub sweep : {W : Type 0} → ℕ → Store W → Store W
unfolding delete_where
sweep now s = record s { entries = delete_where (is_stale now) s.entries }

module _ {W : Type 0} (f : Float64 W) where
  unfoldable pub cap : ℕ → W → W
  cap burst t = if f.greater t (f.of_int (pos burst)) then f.of_int (pos burst) else t

  -- The tokens that came in since the last update, up to the burst.
  unfoldable pub refill : ℕ → ℕ → ℕ → Bucket W → Bucket W
  unfolding cap
  refill rate burst now b = record {
    tokens =
        cap burst
          (f.add b.tokens (f.mul (f.seconds (sub_ℕ now b.last_update)) (f.of_int (pos rate))));
    last_update = now;
  }

  -- The seconds until the next token, one at least.
  unfoldable pub wait : ℕ → W → ℕ
  wait rate tokens =
      let needed = f.sub (f.of_int (pos 1)) tokens in
      max (pos_part (f.to_int (f.mul (f.div needed (f.of_int (pos rate))) (f.of_int (pos second)))))
        1

  -- One token, if there is one.
  unfoldable pub spend : ℕ → Bucket W → Bucket W × Answer
  unfolding wait
  spend rate b =
      let left = f.sub b.tokens (f.of_int (pos 1)) in
      if f.at_least b.tokens (f.of_int (pos 1))
      then (
        record b { tokens = left },
        record { allowed = true; remaining = pos_part (f.to_int left); reset_seconds = 1 },
      )
      else (b, record { allowed = false; remaining = 0; reset_seconds = wait rate b.tokens })

  -- The entry of a key, full if it is new.
  unfoldable pub entry_or_full : ℕ → ℕ → Option (Bucket W) → Bucket W
  entry_or_full burst now none = record { tokens = f.of_int (pos burst); last_update = now }
  entry_or_full burst now (some b) = b

  -- Allow
  unfoldable pub allow : Bytes → ℕ → Store W → Store W × Answer
  unfolding refill spend entry_or_full put_key find_key
  allow key now s =
      let entry = entry_or_full s.burst now (find_key key s.entries) in
      let (b, answer) = spend s.rate (refill s.rate s.burst now entry) in
      (record s { entries = put_key key b s.entries }, answer)
