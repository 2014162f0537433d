-- ===== src/Router.antt =====
-- The package router: routing and request contexts.
pub mod Params
pub mod Chain
pub mod Radix
pub mod Proxies
pub mod StaticTable
pub mod Quality
pub mod Blanks
pub mod Accept
pub mod Reverse
pub mod Version
pub mod Constraints
pub mod Registration
pub mod Dispatch
pub mod Trees
