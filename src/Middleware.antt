-- ===== src/Middleware.antt =====
-- The handlers that limit, redirect or refuse requests (middleware).
pub mod RateLimit
pub mod BodyLimit
pub mod TrailingSlash
pub mod Cors
