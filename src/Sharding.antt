-- ===== src/Sharding.antt =====
-- orm/internal/sharding: the strategies that choose a shard for a key, and the router with its cache.
pub mod Decimal
pub mod Checksum
pub mod Strategy
pub mod Names
pub mod Routes
pub mod Router
pub mod RouteCache
pub mod Transparent
pub mod Manager
pub mod Dispatch
pub mod Targets
pub mod Date
pub mod Connections
pub mod Lifetime
pub mod Tests
pub mod LifetimeTests
