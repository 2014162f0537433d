-- ===== src/Middleware/RateLimit/Window.antt =====
-- The sliding window (middleware/ratelimit/stores.go: InMemoryStore). Times are in nanoseconds from
-- the zero time of Go, which `Truncate` counts from; a window's start is in whole seconds.
pub mod History
mod Tests
use rivaas.Prelude.{
  ℕ, ◌+◌, ◌-◌, ◌*◌, ◌/◌, ◌%◌, Bool, true, false, List, [], ◌∷◌, Option, none, some, ltb, ◌==◌,
  if◌then◌else◌, Bytes, find_key, put_key, delete_where,
}
use rivaas.Middleware.RateLimit.Float64.{second}

-- windowEntry, which is also what GetCounts reports.
pub record Counts : Type 0 where
  pub current : ℕ
  pub previous : ℕ
  pub window_start : ℕ

abbrev pub Entries : Type 0
Entries = List (Bytes × Counts)

-- now.Truncate(window).Unix()
unfoldable pub window_start_of : ℕ → ℕ → ℕ
window_start_of window now = (if window == 0 then now else now - now % window) / second

-- The entry of GetCounts for a window that starts at `start`.
unfoldable pub rolled : ℕ → Option Counts → Counts
rolled start none = record { current = 0; previous = 0; window_start = start }
rolled start (some c) =
    if ltb c.window_start start
    then record { current = 0; previous = c.current; window_start = start }
    else c

-- GetCounts
unfoldable pub get_counts : Bytes → ℕ → ℕ → Entries → Entries × Counts
unfolding window_start_of rolled find_key put_key
get_counts key window now m =
    let c = rolled (window_start_of window now) (find_key key m) in (put_key key c m, c)

-- The entry after Incr.
unfoldable pub incremented : ℕ → Option Counts → Counts
incremented start none = record { current = 1; previous = 0; window_start = start }
incremented start (some c) =
    if ltb c.window_start start
    then record { current = 1; previous = c.current; window_start = start }
    else record c { current = c.current + 1 }

-- Incr
unfoldable pub incr : Bytes → ℕ → ℕ → Entries → Entries
unfolding window_start_of incremented find_key put_key
incr key window now m = put_key key (incremented (window_start_of window now) (find_key key m)) m

-- One round of cleanupLoop: the entries that start before the last two hours are dropped.
abbrev pub is_old : ℕ → Counts → Bool
is_old now c = ltb c.window_start (now / second - 7200)

unfoldable pub sweep : ℕ → Entries → Entries
unfolding delete_where
sweep now m = delete_where (is_old now) m
