-- ===== src/Web.antt =====
-- web: the server over the routing trees and the middleware chain: its context, its responses, its
-- router with route groups and the middleware manager, and the dispatch of a request.
pub mod Context
pub mod Response
pub mod Legacy
pub mod Router
pub mod Groups
pub mod Server
pub mod Dispatch
pub mod Misses
pub mod Answers
pub mod Orders
pub mod GroupUse
pub mod GroupPaths
pub mod Pools
pub mod Tests
