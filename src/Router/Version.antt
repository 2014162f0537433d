-- ===== src/Router/Version.antt =====
-- The version of a request (router/version and processVersioning of router/versioning.go).
pub mod Detectors
pub mod Engine
pub mod Trees
pub mod Lifecycle
pub mod Detected
pub mod Stripped
mod Tests
