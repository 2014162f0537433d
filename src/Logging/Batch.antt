-- ===== src/Logging/Batch.antt =====
-- The batch logger (logging/batch.go). The underlying logger is the list of what it was told, the
-- oldest entry first; what it does with an entry is not followed. The lock makes each call one step, and
-- a round of the ticker is a call of Flush.
pub mod Order
use rivaas.Prelude.{ℕ, List, [], ◌∷◌, ◌++◌, leb, if◌then◌else◌, length, Bytes}

pub data Level : Type 0 where
  debug : Level
  info : Level
  warn : Level
  error : Level

-- batchEntry
pub record Entry : Type 0 where
  pub level : Level
  pub msg : Bytes
  pub attrs : List Bytes

pub record BatchLogger : Type 0 where
  pub output : List Entry
  pub entries : List Entry
  pub batch_size : ℕ

-- NewBatchLogger
unfoldable pub new_batch_logger : ℕ → BatchLogger
new_batch_logger batch_size = record { output = []; entries = []; batch_size = batch_size }

-- The method of the underlying logger for a level, which tells it an entry of that level.
unfoldable pub tell : Level → Entry → List Entry → List Entry
tell debug e output = output ++ record e { level = debug } ∷ []
tell info e output = output ++ record e { level = info } ∷ []
tell warn e output = output ++ record e { level = warn } ∷ []
tell error e output = output ++ record e { level = error } ∷ []

-- The loop of flushLocked
unfoldable pub write_entries : List Entry → List Entry → List Entry
unfolding tell
write_entries [] output = output
write_entries (e ∷ es) output = write_entries es (tell e.level e output)

unfoldable pub flush_locked : BatchLogger → BatchLogger
unfolding write_entries
flush_locked bl = record bl { output = write_entries bl.entries bl.output; entries = [] }

-- add, which Debug, Info, Warn and Error call with their level
unfoldable pub add : Level → Bytes → List Bytes → BatchLogger → BatchLogger
unfolding flush_locked
add level msg attrs bl =
    let more = bl.entries ++ record { level = level; msg = msg; attrs = attrs } ∷ [] in
    let bl' = record bl { entries = more } in
    if leb bl.batch_size (length more) then flush_locked bl' else bl'

-- Flush
unfoldable pub flush : BatchLogger → BatchLogger
unfolding flush_locked
flush bl = flush_locked bl

-- Close: the ticker ends, and the rest is flushed.
unfoldable pub close : BatchLogger → BatchLogger
unfolding flush
close bl = flush bl
