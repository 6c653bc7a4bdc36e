-- ===== src/Sessions/Bolt.antt =====
-- sessions/boltdb.go: sessions in a BoltDB database.
pub mod Stamp
pub mod Database
pub mod Store
pub mod Data
mod Sample
mod Tests
