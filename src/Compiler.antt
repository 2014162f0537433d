-- ===== src/Compiler.antt =====
-- The package router/compiler.
pub mod Fnv
pub mod Bloom
pub mod Route
pub mod Table
pub mod Match
mod Tests
