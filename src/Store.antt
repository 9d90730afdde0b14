-- ===== src/Store.antt =====
-- The data layer, crates/store: its tables, the transactions on them, and what the transactions keep.
pub mod Database
pub mod Names
pub mod Instances
pub mod Shares
pub mod Lease
pub mod Dispatch
pub mod Slots
pub mod Observation
pub mod Hosts
mod Tests
