-- ===== src/Stats.antt =====
-- src/stats/mod.rs.
pub mod Types
pub mod Add
pub mod Sharded
pub mod Tidy
pub mod Report
pub mod Threshold
