-- ===== src/Routing.antt =====
-- web/router.
pub mod Node
pub mod Insert
pub mod Find
pub mod Origin
pub mod Static
pub mod Lookup
pub mod Duplicate
pub mod Radix
pub mod RegexCache
pub mod RadixTests
pub mod Tests
