-- ===== src/Sessions.antt =====
-- The package sessions, in memory.
pub mod Ordered
pub mod Entry
pub mod Memory
pub mod Cleanup
pub mod Bolt
mod Tests
