-- ===== src/Middleware/RateLimit.antt =====
-- The request limits (middleware/ratelimit): the two stores, and the handlers over them.
pub mod Float64
pub mod TokenBucket
pub mod Window
pub mod Handler
