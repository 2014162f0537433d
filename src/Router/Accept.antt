-- ===== src/Router/Accept.antt =====
-- Content negotiation (router/accept.go): the parts of a header, the choice among offers, and the
-- parts kept in the request's context.
pub mod Parse
pub mod Choice
pub mod Cache
pub mod Loops
pub mod Best
pub mod Calls
mod Tests
