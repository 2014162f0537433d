-- ===== src/Router/Radix.antt =====
-- router/radix.go
mod Defs
mod Lookup
mod Tests
pub mod Children
pub mod RoundTrip
pub mod Static
pub mod Wildcards
pub mod Constraints
unfoldable pub use Defs.*
unfoldable pub use Lookup.*
