-- ===== src/Logging/Buffer.antt =====
-- The buffer of startup (logging/buffer.go). A handler of log/slog is a parameter: `handle u r s` is its
-- Handle with what was written so far, and tells whether it succeeded. Handlers that were derived by
-- WithAttrs or WithGroup differ in the underlying handler and share the state of one buffer.
pub mod Replayed
use rivaas.Prelude.{Bool, true, false, List, [], ◌∷◌, ◌++◌, if◌then◌else◌}

-- bufferState, with the records that wait
pub record BufferState (R : Type 0) : Type 0 where
  pub buffering : Bool
  pub records : List R

-- The handler of a logger: one of the application, or one that is wrapped in a bufferingHandler.
pub data Handler (U : Type 0) : Type 0 where
  plain : U → Handler U
  wrapped : U → Handler U

-- A logger, the state of its buffer, and what was written.
pub record Logger (U R S : Type 0) : Type 0 where
  pub handler : Handler U
  pub state : BufferState R
  pub written : S

module _ {U R S : Type 0} (handle : U → R → S → S × Bool) where
  -- Handle of a bufferingHandler over `u`
  unfoldable pub handle_if : Bool → U → R → BufferState R → S → BufferState R × S × Bool
  handle_if true u r state s = (record state { records = state.records ++ r ∷ [] }, s, true)
  handle_if false u r state s = let (s', okay) = handle u r s in (state, s', okay)

  unfoldable pub handle_buffered : U → R → BufferState R → S → BufferState R × S × Bool
  unfolding handle_if
  handle_buffered u r state s = handle_if state.buffering u r state s

  -- The loop of flush, which the first error ends.
  unfoldable pub replay : U → List R → S → S × Bool
  replay u [] s = (s, true)
  replay u (r ∷ rs) s =
      let (s', okay) = handle u r s in
      let rest = replay u rs s' in if okay then rest else (s', false)

  -- flush
  unfoldable pub flush : U → BufferState R → S → BufferState R × S × Bool
  unfolding replay
  flush u state s =
      let (s', okay) = replay u state.records s in
      (record { buffering = false; records = [] }, s', okay)

  -- StartBuffering: a handler that is not wrapped gets a buffer of its own.
  unfoldable pub start_of : Handler U → Logger U R S → Logger U R S
  start_of (plain u) l = record l {
    handler = wrapped u;
    state = record { buffering = true; records = [] };
  }
  start_of (wrapped u) l = record l {
    state = record { buffering = true; records = l.state.records };
  }

  unfoldable pub start_buffering : Logger U R S → Logger U R S
  unfolding start_of
  start_buffering l = start_of l.handler l

  -- FlushBuffer
  unfoldable pub flush_of : Handler U → Logger U R S → Logger U R S × Bool
  unfolding flush
  flush_of (plain u) l = (l, true)
  flush_of (wrapped u) l =
      let (state, s, okay) = flush u l.state l.written in
      (record l { state = state; written = s }, okay)

  unfoldable pub flush_buffer : Logger U R S → Logger U R S × Bool
  unfolding flush_of
  flush_buffer l = flush_of l.handler l

  -- A record that comes to the logger.
  unfoldable pub log_by : Handler U → R → Logger U R S → Logger U R S
  unfolding handle_buffered
  log_by (plain u) r l = record l { written = (handle u r l.written).0 }
  log_by (wrapped u) r l =
      let (state, s, okay) = handle_buffered u r l.state l.written in
      record l { state = state; written = s }

  unfoldable pub log : R → Logger U R S → Logger U R S
  unfolding log_by
  log r l = log_by l.handler r l
