-- ===== src/Logging.antt =====
-- The loggers that hold entries back (logging): the batches and the buffer of startup.
pub mod Batch
pub mod Buffer
mod Tests
