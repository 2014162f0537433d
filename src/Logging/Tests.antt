-- ===== src/Logging/Tests.antt =====
-- Runs of the two loggers. A handler writes the records, each after the handler's own attribute.
use rivaas.Prelude.{ℕ, ◌<◌, ◌≡◌, refl, Bool, true, false, List, [], ◌∷◌, ◌++◌, arith, length, codes}
use rivaas.Logging.Batch.{info, error, new_batch_logger, close}
use rivaas.Logging.Batch.Order.{Call, log, flushed, run, logged, run-logged}
use rivaas.Logging.Buffer
use rivaas.Logging.Buffer.{BufferState, Logger, plain, handle_buffered, flush_buffer}
use rivaas.Logging.Buffer.Replayed

abbrev calls : List Call
calls =
    log info (codes "one") []
    ∷ log error (codes "two") (codes "k" ∷ [])
    ∷ log info (codes "three") []
    ∷ flushed
    ∷ log info (codes "four") []
    ∷ []

run-logged_example :
    ((run calls (new_batch_logger 2)).output ++ (run calls (new_batch_logger 2)).entries
      ≡ logged calls)
    × (length (run calls (new_batch_logger 2)).entries < 2)
    × ((close (run calls (new_batch_logger 2))).output ≡ logged calls)
    × ((close (run calls (new_batch_logger 2))).entries ≡ [])
run-logged_example = run-logged 2 calls (omega arith)

abbrev write : ℕ → ℕ → List (ℕ × ℕ) → List (ℕ × ℕ) × Bool
write attr r written = (written ++ (attr, r) ∷ [], true)

abbrev off : BufferState ℕ
off = record { buffering = false; records = [] }

-- A record that comes to a handler with the attribute 7, derived from one with 0, is written without it.
derived :
    (Buffer.flush write 0
      (handle_buffered write 7 5 (record { buffering = true; records = [] }) []).0
      []).1
    ≡ (0, 5) ∷ []
unfolding Buffer.flush handle_buffered
derived = refl

abbrev startup : List (Replayed.Call ℕ)
startup =
    Replayed.logged 1
    ∷ Replayed.started
    ∷ Replayed.logged 2
    ∷ Replayed.logged 3
    ∷ Replayed.flushed
    ∷ Replayed.logged 4
    ∷ Replayed.started
    ∷ Replayed.logged 5
    ∷ []

flush_buffer-run_example :
    (flush_buffer write (
      Replayed.run write 0 startup
        (record { handler = plain 0; state = off; written = [] }))).0.written
    ≡ Replayed.direct write 0 (Replayed.records_of startup) []
flush_buffer-run_example = Replayed.flush_buffer-run write 0 startup off [] (λ r s. refl)
